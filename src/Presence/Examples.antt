-- ===== src/Presence/Examples.antt =====
-- Presence on concrete inputs: tests of the definitions, and the theorems at work.
use clusdr.Prelude.{
  true, false, ◌≡◌, ◌≢◌, ◌↔◌, ◌⊎◌, ◌<◌, refl, none, some, [], ◌∷◌, String, str_ne, length,
  strip_prefix, join, pos, arith, lookup, insert, byte_len,
}
use clusdr.Names.{ascii, first_bad, is_name_char}
use clusdr.Fault.{Error, err, ok, dial_failed}
use clusdr.Clock.{Duration, add, to_unix_ms, from_unix_ms, duration_ms, ms_duration}
use clusdr.Events.{Event, event, nil, lease_expired}
use clusdr.Leases
use clusdr.Membership.{new}
use clusdr.Consensus.Command.{Codec, deadline_of, ttl_of}
use clusdr.Consensus.Fsm.{apply, apply_command, apply_to, on_leases, apply_lease}
use clusdr.Consensus.Node.{
  propose, apply_lock, lock_result, apply_lease_grant, apply_lease_renew, grant_command,
}
use clusdr.Consensus.Node.Fixtures.{
  clock, codec_for, is_grant, at_once_with, grant_codec-RoundTrips, at_once_with-AppliesHere,
  at_once_with-Commits,
}
use clusdr.Grpc.{Remote, Leading, refused, unavailable}
use clusdr.Presence.{lease_name, node_id, on_expired, watch_expired}
use clusdr.Presence.Expiry.{on_expired_iff}
use clusdr.Presence.Keeper.{Keeper, new_keeper, ensure}
use clusdr.Presence.Holder.{RaftHolder, World, as_holder, grant, renew}
use clusdr.Presence.Keeping.{AsksIn, HasLease, presence_kept}
use clusdr.Presence.Regaining.{presence_regained}

program : Unit {0}
unfolding lease_name node_id on_expired watch_expired strip_prefix join new lookup insert byte_len
    first_bad is_name_char Leases.new Leases.valid_name Leases.clamp_ttl Leases.grant Leases.renew
    Leases.add_lease Leases.set_deadline add to_unix_ms from_unix_ms duration_ms ms_duration
    deadline_of ttl_of apply apply_command apply_to on_leases apply_lease propose apply_lock
    lock_result apply_lease_grant apply_lease_renew new_keeper ensure grant renew
program = tt

abbrev expired : Event
expired = event lease_expired "presence.b" nil

dead_b : on_expired expired "a" true true ≡ some "b"
unfolding program
dead_b = refl

on_expired_iff_example :
    ((on_expired expired "a" true true ≡ some "b") ↔ (
      (lease_expired ≡ lease_expired)
      × ("presence.b" ≡ lease_name "b")
      × (◌≢◌ {A = String} "b" "")
      × (◌≢◌ {A = String} "b" "a")
      × (true ≡ true)))
    × (on_expired expired "a" true false ≡ none)
on_expired_iff_example = on_expired_iff expired "a" "b" true

two_seen : watch_expired "a" true ((expired, false) ∷ (expired, true) ∷ []) ≡ "b" ∷ []
unfolding program
two_seen = refl

-- The keeper of "b" on the leader: it thinks that it has token 7, but its lease is gone.
abbrev ttl : Duration
ttl = pos 3_000_000_000

abbrev keeper : Keeper
keeper = record {
  node_id = "b";
  ttl = ttl;
  renew_interval = pos 1_000_000_000;
  request_timeout = pos 5_000_000_000;
  token = 7;
}

abbrev codec : Codec
codec = codec_for is_grant (grant_command clock "presence.b" "b" ttl)

abbrev leading : Leading
leading = record { is_leader = true; codec = codec; raft = at_once_with codec }

abbrev nobody : {Q A : Type 0} → Remote Q A
nobody = record {
  dial = λ addr. some dial_failed;
  answer = λ addr q. refused unavailable dial_failed;
}

abbrev holder : RaftHolder
holder = record { raft = some leading; granting = nobody; renewing = nobody }

abbrev gone : World
gone = (record { members = new 1 "b" "b:1"; locks = none; leases = some Leases.new }, [])

third_of_ttl : (new_keeper "b" (pos 0) (pos 0) (pos 0)).renew_interval ≡ pos 1_000_000_000
unfolding program
third_of_ttl = refl

same_name : lease_name "b" ≡ "presence.b"
unfolding program
same_name = refl

token_after : (ensure (some (as_holder holder clock)) keeper gone).1.token ≡ 1
unfolding program
token_after = refl

legal : Leases.valid_name ascii (lease_name "b") ≡ none
unfolding program
legal = refl

empty : lookup (lease_name "b") Leases.new.leases ≡ none
unfolding program
empty = refl

encodes : codec.encode (grant_command clock (lease_name "b") "b" ttl) ≡ ok []
unfolding program
encodes = refl

named : keeper.node_id ≢ ""
named = str_ne "b" "" refl

room : length Leases.new.leases < Leases.max_leases
unfolding program
room = omega arith

presence_kept_example :
    let r = ensure (some (as_holder holder clock)) keeper gone in
    HasLease clock (lease_name "b") "b" r.1.token ttl r.0
    ⊎ ((r.1 ≡ keeper)
        × ((w : World) × AsksIn (as_holder holder clock) keeper gone w
            × ((e : Error) × ((grant holder clock (lease_name "b") "b" ttl w).1 ≡ err e))
            × (r.0 ≡ (grant holder clock (lease_name "b") "b" ttl w).0)))
presence_kept_example =
    presence_kept ascii holder leading clock keeper gone refl refl (at_once_with-AppliesHere codec)
      (grant_codec-RoundTrips clock "presence.b" "b" ttl) (omega arith) named

presence_regained_example :
    let r = ensure (some (as_holder holder clock)) keeper gone in
    HasLease clock (lease_name "b") "b" r.1.token ttl r.0
presence_regained_example =
    presence_regained ascii holder leading clock keeper Leases.new [] gone refl refl
      (at_once_with-AppliesHere codec) (grant_codec-RoundTrips clock "presence.b" "b" ttl)
      (omega arith) (at_once_with-Commits codec) encodes named legal empty room refl
