-- ===== src/Watch/Opening.antt =====
-- What a client is sent before the live events.
use clusdr.Prelude.{
  pos, ℕ, not, ◌&&◌, ◌≡◌, refl, sym, ap, ◌∙◌, none, some, List, [], ◌∷◌, ◌++◌, map, keep, All,
  String, str_eq, ltb, if◌then◌else◌, inc_uint64, length, Bool-cases, inl, inr,
}
use mathlib.Core.List.{append-nil, append_assoc}
use clusdr.Clock.{Time}
use clusdr.Names.{Unicode}
use clusdr.Bus.{Bus, subscribe, last_seq}
use clusdr.Events.{nil, snapshot_info, member_join, member_dead, leader_changed}
use clusdr.Membership.{Member, normalize_status, status_alive}
use clusdr.Membership.Invariant.{normalize_status-cases}
use clusdr.Watch.{
  WatchRequest, WatchResponse, Stream, send, matches_watch, sync_response, gap_response,
  snapshot_response, snapshot_kind, send_members, send_snapshot, opening, start, validate_topics,
}

-- A member with a normal status.
abbrev pub IsNormal : Member → Type 0
IsNormal m = normalize_status m.status ≡ m.status

-- The event that a member is shown as.
abbrev pub shown_as : Member → String
shown_as m = if str_eq m.status status_alive then member_join else member_dead

abbrev pub members_shown : WatchRequest → Time → List Member → List WatchResponse
members_shown req now ms =
    map (λ m. snapshot_response now (shown_as m) m.id (snapshot_info m.address))
      (keep (λ m. matches_watch req (shown_as m)) ms)

abbrev pub leader_shown : WatchRequest → Time → String → List WatchResponse
leader_shown req now leader_id =
    if not (str_eq leader_id "") && matches_watch req leader_changed
    then snapshot_response now leader_changed leader_id nil ∷ []
    else []

abbrev pub gap_shown : WatchRequest → Time → ℕ → List WatchResponse
gap_shown req now from_seq =
    if ltb 0 req.last_seq && ltb req.last_seq from_seq
    then gap_response now (inc_uint64 req.last_seq) from_seq ∷ []
    else []

snapshot_kind-normal : (m : Member) → IsNormal m → snapshot_kind m ≡ some (shown_as m)
unfolding snapshot_kind
snapshot_kind-normal m n = elim (normalize_status-cases m.status) [
  | inl e ↦ rw (e, sym n ∙ e) refl
  | inr e ↦ rw (e, sym n ∙ e) refl
]

-- A stream whose transport takes every send.
abbrev pub IsOpen : Stream → Type 0
IsOpen st = (n : ℕ) → st.transport n ≡ none

abbrev pub add_sent : List WatchResponse → Stream → Stream
add_sent rs st = record st { sent = st.sent ++ rs }

send-open : (r : WatchResponse) (st : Stream) → IsOpen st → send r st ≡ (add_sent (r ∷ []) st, none)
unfolding send
send-open r st o = rw (send, o (length st.sent)) refl

add_sent-add_sent :
    (rs ss : List WatchResponse) (st : Stream)
    → add_sent ss (add_sent rs st) ≡ add_sent (rs ++ ss) st
add_sent-add_sent rs ss st = λ i. record st { sent = append_assoc st.sent rs ss i }

add_sent-nil : (st : Stream) → st ≡ add_sent [] st
add_sent-nil st = λ i. record st { sent = sym (append-nil st.sent) i }

send_members-open :
    (req : WatchRequest) (now : Time) (ms : List Member) (st : Stream)
    → All IsNormal ms
    → IsOpen st
    → send_members req now ms st ≡ (add_sent (members_shown req now ms) st, none)
unfolding send_members keep
send_members-open req now [] st a o = ap (λ s. (s, none)) (add_sent-nil st)
send_members-open req now (m ∷ ms) st a o =
    let r = snapshot_response now (shown_as m) m.id (snapshot_info m.address) in
    elim (Bool-cases (matches_watch req (shown_as m))) [
      | inl b ↦
          rw (send_members, snapshot_kind-normal m a.0, b, send-open r st o)
            (send_members-open req now ms (add_sent (r ∷ []) st) a.1 o
              ∙ ap (λ s. (s, none)) (add_sent-add_sent (r ∷ []) (members_shown req now ms) st))
      | inr b ↦
          rw (send_members, snapshot_kind-normal m a.0, b) (send_members-open req now ms st a.1 o)
    ]

send_snapshot-open :
    (req : WatchRequest) (now : Time) (ms : List Member) (leader_id : String) (st : Stream)
    → All IsNormal ms
    → IsOpen st
    → send_snapshot req now ms leader_id st
      ≡ (add_sent (members_shown req now ms ++ leader_shown req now leader_id) st, none)
unfolding send_snapshot
send_snapshot-open req now ms leader_id st a o =
    let st' = add_sent (members_shown req now ms) st in
    let l = snapshot_response now leader_changed leader_id nil in
    elim (Bool-cases (not (str_eq leader_id "") && matches_watch req leader_changed)) [
      | inl b ↦
          rw (send_members-open req now ms st a o, b, send-open l st' o)
            (ap (λ s. (s, none)) (add_sent-add_sent (members_shown req now ms) (l ∷ []) st))
      | inr b ↦
          rw (send_members-open req now ms st a o, b, append-nil (members_shown req now ms)) refl
    ]

send_gap-open :
    (req : WatchRequest) (now : Time) (from_seq : ℕ) (st : Stream)
    → IsOpen st
    → (if ltb 0 req.last_seq && ltb req.last_seq from_seq
        then send (gap_response now (inc_uint64 req.last_seq) from_seq) st
        else (st, none))
      ≡ (add_sent (gap_shown req now from_seq) st, none)
send_gap-open req now from_seq st o =
    elim (Bool-cases (ltb 0 req.last_seq && ltb req.last_seq from_seq)) [
      | inl b ↦ rw b (send-open (gap_response now (inc_uint64 req.last_seq) from_seq) st o)
      | inr b ↦ rw b (ap (λ s. (s, none)) (add_sent-nil st))
    ]

opening-open :
    (req : WatchRequest) (now now' now'' : Time) (ms : List Member) (leader_id : String)
    (from_seq : ℕ) (st : Stream)
    → All IsNormal ms
    → IsOpen st
    → opening req now now' now'' ms leader_id from_seq st ≡ (
      record st {
        sent =
            st.sent
            ++ ((members_shown req now ms ++ leader_shown req now leader_id)
                ++ (sync_response now' from_seq ∷ gap_shown req now'' from_seq));
      },
      none,
    )
unfolding opening
opening-open req now now' now'' ms leader_id from_seq st a o =
    let first = members_shown req now ms ++ leader_shown req now leader_id in
    let sync = sync_response now' from_seq in
    let st' = add_sent first st in
    rw (send_snapshot-open req now ms leader_id st a o, send-open sync st' o)
      (send_gap-open req now'' from_seq (add_sent (sync ∷ []) st') o
        ∙ ap (λ s. (s, none))
            (add_sent-add_sent (sync ∷ []) (gap_shown req now'' from_seq) st'
              ∙ add_sent-add_sent first (sync ∷ gap_shown req now'' from_seq) st))

-- Watch of legal topics, on a stream whose transport takes every send and for members with a normal
-- status: it subscribes, and its client is first sent exactly this, in this order: a snapshot event for each
-- member whose event passes the client's filters, a dead member as member.dead and any other as
-- member.join; leader.changed if there is a leader and it passes; watch.sync with the last sequence number
-- that the bus had after the subscription, whatever others had done to it by then; and watch.gap from the number
-- after the client's up to that one, if the client named a number that the bus is past. The bus is left
-- with the subscription and what others did.
pub start-open :
    (u : Unicode) (req : WatchRequest) (now now' now'' : Time) (ms : List Member)
    (leader_id : String) (before meanwhile : Bus → Bus) (b : Bus) (st : Stream)
    → validate_topics u req.topics ≡ none
    → All IsNormal ms
    → IsOpen st
    → let s = subscribe (pos 64) b in
      let from_seq = last_seq (before s.0) in
      start u req now now' now'' ms leader_id before meanwhile b st ≡ (
        meanwhile (before s.0),
        record st {
          sent =
              st.sent
              ++ ((members_shown req now ms ++ leader_shown req now leader_id)
                  ++ (sync_response now' from_seq ∷ gap_shown req now'' from_seq));
        },
        none,
        s.1,
      )
unfolding start
start-open u req now now' now'' ms leader_id before meanwhile b st v a o =
    let s = subscribe (pos 64) b in
    let opened = opening-open req now now' now'' ms leader_id (last_seq (before s.0)) st a o in
    rw (start, v, opened) (ap (λ r. (meanwhile (before s.0), r.0, none, s.1)) opened)
