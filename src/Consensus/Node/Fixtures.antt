-- ===== src/Consensus/Node/Fixtures.antt =====
-- A codec that knows one command, and a raft that commits at once: what tests submit commands with.
use clusdr.Prelude.{
  String, Bool, true, false, ◌&&◌, ◌≡◌, refl, none, some, [], arith, pos, ℤ, ◌==◌, str_eq,
  str_eq_iff, if◌then◌else◌, Bool-cases, inl, inr, ap, sym,
}
use clusdr.Fault.{ok, err, decode_failed}
use clusdr.Names.{ascii}
use clusdr.Clock.{Time, Duration}
use clusdr.Membership.{new}
use clusdr.Locks
use clusdr.Consensus.Command.{
  Command, CommandKind, Codec, blank, add_member, drop_member, lock_acquire, lease_grant,
}
use clusdr.Consensus.Fsm.{Fsm, command, apply}
use clusdr.Consensus.Node.{Raft, grant_command}
use clusdr.Consensus.Node.Submission.{AppliesHere, RoundTrips}
use clusdr.Consensus.Node.Commits.{Commits}

-- Some day in 2026.
abbrev pub clock : Time
clock = 63_903_000_000_000_000_000

abbrev pub the_command : Command
the_command = record {
  kind = lock_acquire;
  id = "b";
  address = "";
  role = "";
  name = "job";
  token = 0;
  ttl_ms = pos 30_000;
  deadline_unix_ms = pos 1_767_403_230_000;
}

abbrev pub is_acquire : CommandKind → Bool
is_acquire lock_acquire = true
is_acquire _ = false

abbrev pub is_add : CommandKind → Bool
is_add add_member = true
is_add _ = false

abbrev pub is_drop : CommandKind → Bool
is_drop drop_member = true
is_drop _ = false

abbrev pub is_grant : CommandKind → Bool
is_grant lease_grant = true
is_grant _ = false

abbrev pub is_pos : ℤ → ℤ → Bool
is_pos (pos n) (pos m) = n == m
is_pos _ _ = false

is_acquire_lem : (k : CommandKind) → is_acquire k ≡ true → k ≡ lock_acquire
is_acquire_lem k h = ground arith

is_add_lem : (k : CommandKind) → is_add k ≡ true → k ≡ add_member
is_add_lem k h = ground arith

is_drop_lem : (k : CommandKind) → is_drop k ≡ true → k ≡ drop_member
is_drop_lem k h = ground arith

is_grant_lem : (k : CommandKind) → is_grant k ≡ true → k ≡ lease_grant
is_grant_lem k h = ground arith

is_pos_lem : (y z : ℤ) → is_pos y z ≡ true → y ≡ z
is_pos_lem y z h = ground arith

abbrev pub same : (CommandKind → Bool) → Command → Command → Bool
same is_kind cmd c =
    is_kind c.kind
    && str_eq c.id cmd.id
    && str_eq c.address cmd.address
    && str_eq c.role cmd.role
    && str_eq c.name cmd.name
    && (c.token == cmd.token)
    && is_pos c.ttl_ms cmd.ttl_ms
    && is_pos c.deadline_unix_ms cmd.deadline_unix_ms

same_lem :
    (is_kind : CommandKind → Bool) (cmd : Command)
    → ((k : CommandKind) → is_kind k ≡ true → k ≡ cmd.kind)
    → (c : Command) → same is_kind cmd c ≡ true
    → c ≡ cmd
same_lem is_kind cmd l c h = λ i. record {
  kind = kind i;
  id = id i;
  address = address i;
  role = role i;
  name = name i;
  token = token i;
  ttl_ms = ttl i;
  deadline_unix_ms = deadline i;
}
  where
    kind : c.kind ≡ cmd.kind
    kind = l c.kind (ground arith)

    id : c.id ≡ cmd.id
    id = ground (arith, str_eq_iff c.id cmd.id)

    address : c.address ≡ cmd.address
    address = ground (arith, str_eq_iff c.address cmd.address)

    role : c.role ≡ cmd.role
    role = ground (arith, str_eq_iff c.role cmd.role)

    name : c.name ≡ cmd.name
    name = ground (arith, str_eq_iff c.name cmd.name)

    token : c.token ≡ cmd.token
    token = ground arith

    ttl : c.ttl_ms ≡ cmd.ttl_ms
    ttl = is_pos_lem c.ttl_ms cmd.ttl_ms (ground arith)

    deadline : c.deadline_unix_ms ≡ cmd.deadline_unix_ms
    deadline = is_pos_lem c.deadline_unix_ms cmd.deadline_unix_ms (ground arith)

-- A codec that knows one command, of the kind that the test recognises.
abbrev pub codec_for : (CommandKind → Bool) → Command → Codec
codec_for is_kind cmd = record {
  encode = λ c. if same is_kind cmd c then ok [] else err decode_failed;
  decode = λ bytes. some cmd;
}

codec_for-RoundTrips :
    (is_kind : CommandKind → Bool) (cmd : Command)
    → ((k : CommandKind) → is_kind k ≡ true → k ≡ cmd.kind)
    → RoundTrips (codec_for is_kind cmd)
codec_for-RoundTrips is_kind cmd l c bytes e = elim (Bool-cases (same is_kind cmd c)) [
  | inl b ↦ ap some (sym (same_lem is_kind cmd l c b))
  | inr b ↦ absurd (let q : err decode_failed ≡ ok bytes = rw b at e in ground arith)
]

abbrev pub one_codec : Codec
one_codec = codec_for is_acquire the_command

pub one_codec-RoundTrips : RoundTrips one_codec
one_codec-RoundTrips = codec_for-RoundTrips is_acquire the_command is_acquire_lem

pub add_codec-RoundTrips :
    (id addr role : String)
    → RoundTrips
        (codec_for is_add (record (blank add_member) { id = id; address = addr; role = role }))
add_codec-RoundTrips id addr role = codec_for-RoundTrips is_add _ is_add_lem

pub drop_codec-RoundTrips :
    (id : String) → RoundTrips (codec_for is_drop (record (blank drop_member) { id = id }))
drop_codec-RoundTrips id = codec_for-RoundTrips is_drop _ is_drop_lem

pub grant_codec-RoundTrips :
    (now : Time) (name owner : String) (requested : Duration)
    → RoundTrips (codec_for is_grant (grant_command now name owner requested))
grant_codec-RoundTrips now name owner requested = codec_for-RoundTrips is_grant _ is_grant_lem

-- A raft that applies every entry at once.
abbrev pub at_once_with : Codec → Raft
at_once_with codec = record {
  submit = λ bytes f. let r = apply codec ascii clock (command bytes) f in (r.0, r.1, ok r.2);
}

pub at_once_with-AppliesHere : (codec : Codec) → AppliesHere codec ascii (at_once_with codec)
at_once_with-AppliesHere codec bytes f r e =
    let p : (apply codec ascii clock (command bytes) f).2 ≡ r = ground arith in
    let a = apply codec ascii clock (command bytes) f in (clock, λ i. (a.0, a.1, p i))

abbrev pub at_once : Raft
at_once = at_once_with one_codec

pub at_once-AppliesHere : AppliesHere one_codec ascii at_once
at_once-AppliesHere = at_once_with-AppliesHere one_codec

abbrev pub idle : Fsm
idle = record { members = new 1 "a" "a:1"; locks = some Locks.new; leases = none }

pub at_once_with-Commits : (codec : Codec) → Commits (at_once_with codec)
at_once_with-Commits codec bytes f = (_, refl)
