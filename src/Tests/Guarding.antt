-- ===== src/Tests/Guarding.antt =====
-- The rate limiter, the DNSSEC checks, the counters and the configuration at concrete inputs.
use mathlib.Core.List.{Memᴰ}
use lrmdns.Prelude.{ℕ, ◌+◌, ◌*◌, ◌^◌, ◌<◌, ◌≡◌, ◌↔◌, refl, true, List, [], ◌∷◌, arith}
use lrmdns.Prelude.Result.{ok}
use lrmdns.HashMap.{get, modify}
use lrmdns.Dns.Rr.{Bytes, RecordType, Record, rtype_eq}
use lrmdns.Dns.Op.{ResponseCode}
use lrmdns.RateLimit.{maybe_cleanup, Readings, new, from_secs, check_rate_limit}
use lrmdns.RateLimit.Spec.{admits, admit}
use lrmdns.RateLimit.Refinement.{Refines, new-Refines, check_rate_limit-Refines}
use lrmdns.RateLimit.Runs.{run}
use lrmdns.Dnssec.{
  key_tag_loop, add_byte, compute_key_tag, verify_ds, validate_nsec_denial, key_rdata, as_nsec,
}
use lrmdns.Dnssec.Ds.{Authenticates, verify_ds_iff}
use lrmdns.Dnssec.KeyTag.{words_sum, AreBytes, compute_key_tag-words}
use lrmdns.Dnssec.Denial.{DeniesData, validate_nsec_denial_iff}
use lrmdns.Metrics.{Protocol, u64, get_snapshot}
use lrmdns.Metrics
use lrmdns.Metrics.Counts.{Update, apply_all}
use lrmdns.Metrics.Tally.{tally, types_of, apply_all-tallies}
use lrmdns.Tests.Samples.{names, address_key, crypto, key_data, dnskey, ds, origin_nsec, missing}

abbrev readings : ℕ → Readings
readings n = record { elapsed_at = n; cleanup_at = n; stamped_at = n; now = n }

-- two queries at once and one after two seconds, from one client
abbrev calls : List (ℕ × Readings)
calls = (7, readings 1000) ∷ (7, readings 1000) ∷ (7, readings (1000 + 2 * 10 ^ 9)) ∷ []

-- The second of two queries at once is refused under a limit of one query per second.
run-calls : (run calls (new 1 1000, [])).1 ≡ (7, 1000) ∷ (7, 2000001000) ∷ []
unfolding run new check_rate_limit maybe_cleanup get modify
run-calls = refl

check_rate_limit-Refines_example :
    ((check_rate_limit {Addr = ℕ} 7 (readings 2000) (new 1 1000)).1
      ≡ admits {Addr = ℕ} 1 (from_secs 1) [] 7 2000)
    × Refines
        (check_rate_limit {Addr = ℕ} 7 (readings 2000) (new 1 1000)).0
        (admit {Addr = ℕ} 1 (from_secs 1) [] 7 2000)
        2000
unfolding new
check_rate_limit-Refines_example =
    check_rate_limit-Refines 7 (readings 2000) (new 1 1000) [] 1000 (new-Refines 1 1000)
      (record { begins = omega arith; ends = omega arith })

verify_ds_iff_example : (verify_ds crypto ds dnskey ≡ ok tt) ↔ Authenticates crypto ds dnskey
verify_ds_iff_example = verify_ds_iff crypto ds dnskey

ds_passes : verify_ds crypto ds dnskey ≡ ok tt
unfolding verify_ds compute_key_tag key_rdata key_tag_loop add_byte
ds_passes = refl

key_bytes : AreBytes (key_rdata crypto key_data)
unfolding key_rdata
key_bytes = ground arith

compute_key_tag-words_example : (compute_key_tag crypto dnskey ≡ ok 2064) × (2064 < 2 ^ 32)
unfolding words_sum key_rdata
compute_key_tag-words_example =
    compute_key_tag-words crypto key_data key_bytes (omega arith) dnskey refl

validate_nsec_denial_iff_example :
    (validate_nsec_denial missing RecordType.a (origin_nsec ∷ []) ≡ ok tt) ↔ (
      (r : Record Bytes) × Memᴰ r (origin_nsec ∷ [])
      × DeniesData missing RecordType.a r.name (as_nsec r.rdata))
validate_nsec_denial_iff_example = validate_nsec_denial_iff missing RecordType.a (origin_nsec ∷ [])

abbrev updates : List Update
updates =
    Update.query Protocol.udp true
    ∷ Update.query_type RecordType.a
    ∷ Update.response ResponseCode.no_error
    ∷ Update.latency 250
    ∷ []

apply_all-tallies_example :
    let m' = apply_all updates (Metrics.new 5) in
    (u64 m'.total_queries ≡ 1)
    × (u64 m'.noerror_responses ≡ 1)
    × (u64 m'.nxdomain_responses ≡ 0)
    × (u64 m'.refused_responses ≡ 0)
    × (u64 (types_of RecordType.a m') ≡ 1)
unfolding tally rtype_eq Metrics.new get
apply_all-tallies_example = apply_all-tallies updates (Metrics.new 5) RecordType.a
