-- ===== src/Decision/Tests.antt =====
-- Candidate scoring at concrete inputs.
use mathlib.Core.List.{flatten, Perm}
use vllm_verifier.Base.{
  map, lookup, insert, String, elem, keys, str_eq, if◌then◌else◌, ◌<◌, ℕ, ◌≡◌, refl, true, false,
  List, [], ◌∷◌, arith, length, all, All, ltb,
}
use vllm_verifier.Errors.{Result, ok, err, item}
use vllm_verifier.Models.{Answer, SystemOneRequest, text, choice, choice_answer}
use vllm_verifier.Floats.{in_unit}
use vllm_verifier.Answers.{max_of, max_from, argmax, argmax_from, answer_choice}
use vllm_verifier.Answers.Fits.{Fits}
use vllm_verifier.Samples.{milli, milli_laws, plan, total}
use vllm_verifier.Decision.Readout.{size_of, answer_of, candidate_answer, candidate_answer-Fits}
use vllm_verifier.Decision.Queue.{
  QueueSettings, Event, submit, get_first, close, is_done, handle_all, handle, enqueue, enqueue_if,
  admission, begin, shut_down, opened,
}
use vllm_verifier.Decision.Queue.Accounting.{closed-all_done}
use vllm_verifier.Decision.Rows.{RowWriter, content, row_of, records}
use vllm_verifier.Decision.Scoring.{
  Scorer, Outcomes, admit_request, admit_requests, put_answer, put_answers, run_batch, run_batches,
  run_pending, evaluate_batch,
}
use vllm_verifier.Decision.Scoring.Pairs.{Pairs}
use vllm_verifier.Decision.Scoring.Served.{Served, evaluate_batch-Served}
use vllm_verifier.Decision.Artifact.{
  manifest_sha256, FileReference, Folder, check_file, check_files, verify_artifact, IsReviewed,
  verify_artifact-IsReviewed, verify_artifact_payload,
}
use vllm_verifier.Decision.Batching.{
  physical_batches, sort_entries, extend, place, batches_of, IsSorted, IsPhysical, batches_of_lem,
}

abbrev probabilities : List ℕ
probabilities = 800 ∷ 200 ∷ []

abbrev yes_answer : Answer ℕ
yes_answer =
    choice_answer
      (record { choice = "yes"; probabilities = ("yes", 800) ∷ ("no", 200) ∷ []; confidence = 800 })

answers_yes : candidate_answer milli (choice plan) probabilities ≡ ok yes_answer
unfolding candidate_answer answer_of max_of max_from answer_choice argmax argmax_from
answers_yes = refl

candidate_answer-Fits_example :
    Fits milli (choice plan) yes_answer
    × (length probabilities ≡ size_of milli (choice plan))
    × (all (in_unit milli) probabilities ≡ true)
    × (ltb 0 (milli.abs (milli.sub (total probabilities) 1000)) ≡ false)
candidate_answer-Fits_example =
    candidate_answer-Fits milli milli_laws (choice plan) probabilities yes_answer answers_yes

abbrev lengths : List ℕ
lengths = 700 ∷ 300 ∷ 900 ∷ 320 ∷ 5000 ∷ []

abbrev identity : ℕ → ℕ
identity n = n

batches_of_lem_example :
    Perm (flatten (batches_of identity 2 1000 lengths)) lengths
    × IsSorted identity (flatten (batches_of identity 2 1000 lengths))
    × All (IsPhysical identity 2 1000) (batches_of identity 2 1000 lengths)
batches_of_lem_example = batches_of_lem identity 2 1000 lengths (omega arith)

abbrev a_request : SystemOneRequest ℕ
a_request = record { model = "jev-latest"; state = text "a state"; questions = [] }

abbrev one_by_one : QueueSettings
one_by_one = record { max_requests = 2; batch_requests = 1 }

-- One request is with the worker and one waits when the service is closed.
abbrev busy_close : List (Event ℕ)
busy_close = submit a_request ∷ submit a_request ∷ get_first ∷ close ∷ []

is_closed : (handle_all one_by_one busy_close opened).closed ≡ true
unfolding handle_all handle enqueue enqueue_if admission begin shut_down
is_closed = refl

has_future : 1 < (handle_all one_by_one busy_close opened).next
unfolding handle_all handle enqueue enqueue_if admission begin shut_down
has_future = omega arith

closed-all_done_example : is_done 1 (handle_all one_by_one busy_close opened).done ≡ true
closed-all_done_example = closed-all_done one_by_one busy_close 1 (omega arith) is_closed has_future

-- An export of one module.
abbrev module_files : List (String × FileReference)
module_files = ("artifacts.py", record { bytes = 12; sha256 = "cafe" }) ∷ []

abbrev a_folder : Folder
a_folder = record {
  digest = λ path. if str_eq path "MANIFEST.json" then manifest_sha256 else "cafe";
  manifest = ok module_files;
  is_absolute = λ name. false;
  parts = λ name. name ∷ [];
  is_symlink = λ path. false;
  is_file = λ path. true;
  size = λ path. 12;
  rglob = "MANIFEST.json" ∷ "artifacts.py" ∷ [];
  name_of = λ path. path;
}

is_verified : verify_artifact a_folder ≡ ok tt
unfolding verify_artifact check_files check_file
is_verified = refl

verify_artifact-IsReviewed_example :
    (a_folder.digest "MANIFEST.json" ≡ manifest_sha256) × All (IsReviewed a_folder) module_files
verify_artifact-IsReviewed_example =
    verify_artifact-IsReviewed a_folder module_files is_verified refl

verify_artifact_payload_example : elem "artifacts.py" (keys module_files) ≡ true
verify_artifact_payload_example =
    verify_artifact_payload a_folder module_files "artifacts.py" is_verified refl refl refl

abbrev plain_rows : RowWriter ℕ
plain_rows = record { dumps_sorted = λ value. "{}"; is_blank = λ t. str_eq t "" }

-- It gives every first candidate four fifths.
abbrev sure_scorer : Scorer ℕ
sure_scorer = record {
  encode = λ row. ok 10;
  collate = λ rows. ok (map (λ row. record { positions = 2; input_tokens = 10 }) rows);
  score = λ rows. ok (record { is_finite = true; probabilities = map (λ row. probabilities) rows });
  batch_size = 8;
  batch_tokens = 4096;
}

-- The second request has no state.
abbrev mixed_requests : List (SystemOneRequest ℕ)
mixed_requests =
    record {
      model = "jev-latest";
      state = text "a state";
      questions = ("a", choice plan) ∷ ("b", choice plan) ∷ [];
    }
    ∷ record { model = "jev-latest"; state = text ""; questions = ("c", choice plan) ∷ [] }
    ∷ []

abbrev outcomes_or : Result (Outcomes ℕ) → Outcomes ℕ
outcomes_or (ok o) = o
outcomes_or (err x) = []

abbrev mixed_outcomes : Outcomes ℕ
mixed_outcomes = outcomes_or (evaluate_batch milli plain_rows sure_scorer mixed_requests)

scores_mixed : evaluate_batch milli plain_rows sure_scorer mixed_requests ≡ ok mixed_outcomes
unfolding evaluate_batch admit_requests admit_request records content row_of run_pending run_batches
    batches_of physical_batches sort_entries extend place run_batch put_answers put_answer item
    lookup insert candidate_answer answer_of max_of max_from answer_choice argmax argmax_from
scores_mixed = refl

evaluate_batch-Served_example :
    Pairs (Served milli milli_laws plain_rows sure_scorer) mixed_requests mixed_outcomes
evaluate_batch-Served_example =
    evaluate_batch-Served milli milli_laws plain_rows sure_scorer mixed_requests mixed_outcomes
      scores_mixed
