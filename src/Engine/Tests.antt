-- ===== src/Engine/Tests.antt =====
-- Runs of the engine at concrete inputs.
use mathlib.Core.List.{flatten, Sublist, Perm}
use vllm_verifier.Base.{
  ℕ, ◌+◌, ◌≡◌, refl, ◌≢◌, Option, none, some, List, [], ◌∷◌, ◌++◌, arith, ◌≤◌, length, sum_by, All,
  true, false, codes, contains, lookup, insert,
}
use vllm_verifier.Models.{Completion}
use vllm_verifier.Errors.{Result, ok, err, item}
use vllm_verifier.Verification.{
  verify, strict_json, loads, unique_object, decide_raw, noul_value, probability, distribution,
  listed, normalised, confidence_of, entropy_terms, has_key, hook, only_key, put_last, unfence,
  unique_from,
}
use vllm_verifier.Answers.{answer_choice, argmax, argmax_from, answer_score, decimal}
use vllm_verifier.Engine.{
  WorkItem, DecisionRun, Progress, shared_prefix, round_robin, take_batch, prefix_loop,
}
use vllm_verifier.Engine.Evaluate.{
  evaluate, prepare, drain, states_of, round, settle, absorb_all, absorb, absorb_of, repair,
  append_repair, judge, new_job, all_jobs, responses_for, collect,
}
use vllm_verifier.Engine.Total.{evaluate_total}
use vllm_verifier.Engine.Accounting.{evaluate-stats}
use vllm_verifier.Engine.Batches.{Stopped, batch_tokens, take_batch_lem}
use vllm_verifier.Engine.Gemma.{
  final_content, IsFinal, channel_open, channel_close, final_content-IsFinal,
}
use vllm_verifier.Prompts.{Message, plain}
use vllm_verifier.Engine.Mlx.{MlxLibrary, encode_text, complete_tokens, mlx_complete}
use vllm_verifier.Engine.Native.{
  Output, Reports, generate_from, completions_for, completion_for, generate_from-Reports,
}
use vllm_verifier.Engine.Rounds.{round_robin_lem}
use vllm_verifier.Engine.Responses.{Answered, evaluate-Answered, evaluate_complete}
use vllm_verifier.Samples.{toy_engine, two_requests, small_config, small_config-IsConfig, some_job}

abbrev three_jobs : List (WorkItem ℕ)
three_jobs = some_job ∷ some_job ∷ some_job ∷ []

abbrev no_run : DecisionRun ℕ
no_run = record {
  responses = [];
  stats = record {
    submitted_questions = 0;
    repair_questions = 0;
    batches = 0;
    batch_sizes = [];
    shared_prefix_tokens = [];
  };
}

abbrev nothing_done : Progress ℕ
nothing_done = record { pending = []; answers = []; usage = []; stats = no_run.stats }

abbrev value_or : {A : Type 0} → A → Result A → A
value_or a (ok b) = b
value_or a (err x) = a

abbrev drained_or : Progress ℕ → Option (Result (Progress ℕ) × ℕ) → Progress ℕ
drained_or p none = p
drained_or p (some (r, s)) = value_or p r

abbrev run_of : Option (Result (DecisionRun ℕ) × ℕ) → DecisionRun ℕ
run_of none = no_run
run_of (some (ok run, s)) = run
run_of (some (err x, s)) = no_run

abbrev toy_run : DecisionRun ℕ
toy_run = run_of (evaluate toy_engine 0 two_requests)

runs : evaluate toy_engine 0 two_requests ≡ some (ok toy_run, 3)
unfolding evaluate prepare drain round settle absorb_all absorb absorb_of repair append_repair judge
    new_job all_jobs responses_for collect shared_prefix round_robin take_batch prefix_loop verify
    strict_json loads unique_object decide_raw noul_value probability distribution listed normalised
    confidence_of entropy_terms has_key hook only_key put_last unfence unique_from answer_choice
    argmax argmax_from answer_score decimal item lookup insert
runs = refl

abbrev first_progress : Progress ℕ
first_progress = value_or nothing_done (prepare toy_engine two_requests)

abbrev last_progress : Progress ℕ
last_progress =
    drained_or nothing_done
      (drain toy_engine 6 (states_of toy_engine two_requests) 0 first_progress)

is_prepared : prepare toy_engine two_requests ≡ ok first_progress
unfolding evaluate prepare drain round settle absorb_all absorb absorb_of repair append_repair judge
    new_job all_jobs responses_for collect shared_prefix round_robin take_batch prefix_loop verify
    strict_json loads unique_object decide_raw noul_value probability distribution listed normalised
    confidence_of entropy_terms has_key hook only_key put_last unfence unique_from answer_choice
    argmax argmax_from answer_score decimal item lookup insert
is_prepared = refl

is_drained :
    drain toy_engine 6 (states_of toy_engine two_requests) 0 first_progress
    ≡ some (ok last_progress, 3)
unfolding evaluate prepare drain round settle absorb_all absorb absorb_of repair append_repair judge
    new_job all_jobs responses_for collect shared_prefix round_robin take_batch prefix_loop verify
    strict_json loads unique_object decide_raw noul_value probability distribution listed normalised
    confidence_of entropy_terms has_key hook only_key put_last unfence unique_from answer_choice
    argmax argmax_from answer_score decimal item lookup insert
is_drained = refl

evaluate_total_example : evaluate toy_engine 0 two_requests ≢ none
evaluate_total_example = evaluate_total toy_engine 0 two_requests small_config-IsConfig

evaluate-Answered_example : Answered toy_engine two_requests 0 two_requests toy_run.responses
evaluate-Answered_example = evaluate-Answered toy_engine 0 two_requests toy_run 3 runs

evaluate-stats_example :
    (toy_run.stats.submitted_questions ≡ 3 + toy_run.stats.repair_questions)
    × (toy_run.stats.batches ≡ length toy_run.stats.batch_sizes)
    × (toy_run.stats.submitted_questions ≡ sum_by (λ n. n) toy_run.stats.batch_sizes)
    × All (λ n. (1 ≤ n) × (n ≤ 2)) toy_run.stats.batch_sizes
    × (toy_run.stats.submitted_questions ≤ 6)
evaluate-stats_example =
    evaluate-stats toy_engine 0 two_requests toy_run 3 small_config-IsConfig runs

take_batch_lem_example :
    ((take_batch small_config 0 0 three_jobs).0 ++ (take_batch small_config 0 0 three_jobs).1
      ≡ three_jobs)
    × (1 ≤ length (take_batch small_config 0 0 three_jobs).0)
    × (length (take_batch small_config 0 0 three_jobs).0 ≤ 2)
    × (batch_tokens small_config (take_batch small_config 0 0 three_jobs).0 ≤ 1000)
    × Stopped small_config 0 0
        (take_batch small_config 0 0 three_jobs).0
        (take_batch small_config 0 0 three_jobs).1
take_batch_lem_example =
    take_batch_lem small_config some_job (some_job ∷ some_job ∷ []) (omega arith) (omega arith)

abbrev two_queues : List (List ℕ)
two_queues = (1 ∷ 2 ∷ []) ∷ (3 ∷ []) ∷ []

round_robin_lem_example :
    Perm (round_robin 3 two_queues) (flatten two_queues)
    × Sublist (1 ∷ 2 ∷ []) (round_robin 3 two_queues)
round_robin_lem_example = round_robin_lem 3 two_queues 0 (1 ∷ 2 ∷ []) (omega arith) refl

evaluate_complete_example :
    (run : DecisionRun ℕ) × (evaluate toy_engine 0 two_requests ≡ some (ok run, 3))
evaluate_complete_example =
    evaluate_complete toy_engine 0 two_requests first_progress last_progress 3 is_prepared
      is_drained

thinks : final_content (codes "<|channel>thought\nwell<channel|>42") ≡ ok (codes "42")
unfolding final_content
thinks = refl

final_content-IsFinal_example :
    IsFinal (codes "<|channel>thought\nwell<channel|>42") (codes "42")
    × (contains channel_open (codes "42") ≡ false)
    × (contains channel_close (codes "42") ≡ false)
final_content-IsFinal_example =
    final_content-IsFinal (codes "<|channel>thought\nwell<channel|>42") (codes "42") thinks

abbrev an_output : Output
an_output = record {
  prompt_token_ids = some (7 ∷ 8 ∷ 9 ∷ []);
  outputs = record { text = 65 ∷ []; token_ids = 4 ∷ 5 ∷ []; finish_reason = some "stop" } ∷ [];
}

abbrev a_completion : Completion
a_completion = record {
  text = 65 ∷ [];
  usage = record { input_tokens = 3; output_tokens = 2 };
  finish_reason = "stop";
}

generates : generate_from (some_job ∷ []) (an_output ∷ []) ≡ ok (a_completion ∷ [])
unfolding generate_from completions_for completion_for
generates = refl

generate_from-Reports_example : Reports (some_job ∷ []) (an_output ∷ []) (a_completion ∷ [])
generate_from-Reports_example =
    generate_from-Reports (some_job ∷ []) (an_output ∷ []) (a_completion ∷ []) generates

-- It yields a draft, then an answer.
abbrev mlx_library : MlxLibrary
mlx_library = record {
  template = λ messages. ok (some (1 ∷ 2 ∷ []));
  stream = λ tokens budget. ok (
      record {
        is_draft = true;
        text = 9 ∷ [];
        finish_reason = none;
        prompt_tokens = 2;
        generation_tokens = 0;
      }
      ∷ record {
        is_draft = false;
        text = 7 ∷ 8 ∷ [];
        finish_reason = some "stop";
        prompt_tokens = 2;
        generation_tokens = 2;
      }
      ∷ []);
}

abbrev hello : List Message
hello = record { role = "user"; content = plain (5 ∷ []) } ∷ []

abbrev mlx_completion : Completion
mlx_completion = record {
  text = 7 ∷ 8 ∷ [];
  usage = record { input_tokens = 2; output_tokens = 2 };
  finish_reason = "stop";
}

mlx_completes : mlx_complete mlx_library 512 true 256 hello ≡ ok mlx_completion
unfolding mlx_complete encode_text complete_tokens final_content
mlx_completes = refl
