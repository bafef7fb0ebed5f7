-- ===== src/Tests/Workload.antt =====
-- The sample application with times and rates in thousandths.
use kubetraffic.Prelude.{
  ℕ, ◌+◌, ◌≤◌, ◌<◌, ◌≡◌, refl, true, false, not, ◌&&◌, none, some, List, [], ◌∷◌, map, arith,
  if◌then◌else◌, ltb, leb, or_else, Str, bytes, length, lookup,
}
use kubetraffic.Prelude.Int.{pos, ltb_ℤ, int64_half}
use kubetraffic.SampleApp.Floats.{Floats, OrderLaws}
use kubetraffic.SampleApp.Config.{Process, from_env}
use kubetraffic.SampleApp.Fault.{FaultState}
use kubetraffic.SampleApp.Metrics.{new_metrics, duration_buckets}
use kubetraffic.SampleApp.Metrics.Counts.{
  Observation, hits, within, tally, observe_all, observe_all_lem,
}
use kubetraffic.SampleApp.Handlers.{
  WriterCall, write_header, write, handled, Request, RootWorld, root_delay, handle_root,
}
use kubetraffic.SampleApp.Server.{begin_request, new_recorder, record_calls}
use kubetraffic.SampleApp.Server.Replies.{sent_status, record_calls_lem, handle_root_lem}
use kubetraffic.SampleApp.Server.Traffic.{here, next, arrive, quiet, IsExact, Reach-from_env}
use kubetraffic.SampleApp.Server.Lifecycle.{
  Life, born, Turns, waiting, clearing, draining, stopped, drains_ready,
}

abbrev thousandths : Floats ℕ
thousandths = record {
  milli = λ n. n;
  lt = ltb;
  le = leb;
  add = ◌+◌;
  parse_float = λ s. none;
  format_float = λ n. [];
  seconds = λ d. 0;
}

leb_trans : (a b c : ℕ) → leb a b ≡ true → leb b c ≡ true → leb a c ≡ true
leb_trans a b c h k = ground arith

leb_of_le : (m n : ℕ) → m ≤ n → leb m n ≡ true
leb_of_le m n h = ground arith

ordered : OrderLaws thousandths
ordered = record {
  zero_irrefl = refl;
  one_irrefl = refl;
  one_zero = refl;
  le_trans = leb_trans;
  milli_mono = leb_of_le;
}

abbrev seen : List (Observation ℕ)
seen =
    record { method = bytes "GET"; status = 200; seconds = 7 }
    ∷ record { method = bytes "GET"; status = 500; seconds = 300 }
    ∷ []

observe_all_lem_example :
    let m = observe_all thousandths seen (new_metrics thousandths [] [] []) in
    (m.count ≡ length seen)
    × (m.bucket_counts ≡ map (within thousandths seen) duration_buckets)
    × ((k : Str) → or_else (lookup k m.req_total) (pos 0) ≡ pos (hits k seen))
    × (tally m.req_total ≡ m.count)
observe_all_lem_example = observe_all_lem thousandths seen [] [] [] (omega arith)

abbrev process : Process
process = record {
  lookup_env = λ k. none;
  hostname = bytes "pod";
  parse_bool = λ s. none;
  atoi = λ s. none;
}

few : 1 < int64_half
few = omega arith

Reach-from_env_example :
    let t = quiet thousandths (from_env thousandths process) in
    IsExact thousandths
      (record t { server = begin_request thousandths t.server; open_requests = 1 })
Reach-from_env_example =
    Reach-from_env thousandths ordered process
      (next here (arrive (quiet thousandths (from_env thousandths process)) few))

abbrev calls : List (WriterCall ℕ)
calls = write_header 503 ∷ write (bytes "not ready") ∷ write_header 200 ∷ []

record_calls_lem_example :
    (record_calls (λ p. true) calls new_recorder).status ≡ sent_status (λ p. true) calls
record_calls_lem_example =
    record_calls_lem (λ p. true) calls
      ((omega arith, omega arith), (tt, ((omega arith, omega arith), tt)))

abbrev faulty : FaultState ℕ
faulty = record { rate = 500; latency = pos 5; jitter = pos 3 }

abbrev world : RootWorld ℕ
world = record {
  draw = λ n. pos 3;
  chance = 100;
  hung_up = false;
  now = bytes "now";
  split_host_port = λ s. none;
}

abbrev get_root : Request
get_root = record {
  method = bytes "GET";
  path = bytes "/";
  remote_addr = bytes "10.0.0.9:1234";
  forwarded_for = [];
  body = [];
}

handle_root_lem_example :
    let cfg = from_env thousandths process in
    (cs : List (WriterCall ℕ)) × (handle_root thousandths cfg world get_root faulty ≡ handled cs)
    × (root_delay thousandths cfg world faulty ≡ some (pos (5 + 3)))
    × ((record_calls (λ p. true) cs new_recorder).status ≡ (
        if ltb 0 500 && ltb 100 500 && not (ltb_ℤ (pos 0) (pos (5 + 3)) && false)
        then 500
        else 200))
handle_root_lem_example =
    handle_root_lem thousandths (from_env thousandths process) world (λ p. true) get_root faulty 5 3
      3 refl refl (omega arith) refl (omega arith)

abbrev clearing_life : Life
clearing_life = record { ready = true; cancelled = true; run = clearing; mark = stopped }

abbrev waiting_life : Life
waiting_life = record born { mark = waiting }

drains_ready_example :
    (m : Life) × Turns false waiting_life m × (m.run ≡ draining) × (m.ready ≡ true)
drains_ready_example = drains_ready waiting_life refl refl
