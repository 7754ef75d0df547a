-- ===== src/Private/Replies.antt =====
-- A reply finds the mapping of the message that it answers.
use message_sync.Base.{
  ℕ, ◌+◌, ◌<◌, Bool, true, false, not, ◌||◌, none, some, String, List, [], ◌∷◌, All, ltb, ◌==◌,
  eq_nat, eq_string, length, has, lookup, insert, lookup-insert, lookup-has, lookup-differ, ==_refl,
  Bool-cases, Option-cases, inl, inr, arith, ◌≡◌, refl,
}
use message_sync.Router.Registry.{PrivateInbox}
use message_sync.Private.Records.{
  Mapping, Sealing, Digests, SealedRow, PrivateTables, reply_ttl, record_limit, insert_reply,
  put_reply, present, opened, open_row, reply,
}
use message_sync.Private.Cleanup.{prune}
use message_sync.Private.Kept.{prune-replies}

-- A step of the table of replies: a mapping is stored, or expired rows are deleted.
pub data ReplyStep : Type 0 where
  puts : String → Mapping → ℕ → Bool → ReplyStep
  prunes : ℕ → ℕ → List Bool → ReplyStep

abbrev pub reply_after : Digests → Sealing Mapping → PrivateTables → ReplyStep → PrivateTables
reply_after keys sealing t (puts id mapping now fails) =
    (put_reply keys sealing t id mapping now fails).0
reply_after keys sealing t (prunes now n faults) = (prune t now n faults).0

unfoldable pub all_replies :
    Digests → Sealing Mapping → PrivateTables → List ReplyStep → PrivateTables
all_replies keys sealing t [] = t
all_replies keys sealing t (step ∷ steps) =
    all_replies keys sealing (reply_after keys sealing t step) steps

-- No pruning happens at the time or later.
abbrev pub PrunesBefore : ℕ → ReplyStep → Type 0
PrunesBefore expires (puts id mapping now fails) = Unit {0}
PrunesBefore expires (prunes now n faults) = now < expires

abbrev reply_key : Digests → Mapping → String → String
reply_key keys mapping id = keys.inbox_key "reply" mapping.recipient.inbox id

abbrev new_row : ℕ → String → SealedRow
new_row now ciphertext = record { ciphertext = ciphertext; expires_at = now + reply_ttl }

-- What `PutReply` does.
put_cases {ℓ} :
    (P : PrivateTables × Bool → Type ℓ) (keys : Digests) (sealing : Sealing Mapping)
    (t : PrivateTables) (id : String) (mapping : Mapping) (now : ℕ) (fails : Bool)
    → P (t, false)
    → ((ciphertext : String)
        → sealing.seal mapping ≡ some ciphertext
        → lookup (reply_key keys mapping id) t.replies ≡ none
        → P (
          record t {
            replies = insert (reply_key keys mapping id) (new_row now ciphertext) t.replies;
          },
          true,
        ))
    → P (put_reply keys sealing t id mapping now fails)
unfolding put_reply
put_cases P keys sealing t id mapping now fails refused stored =
    elim (Bool-cases (
      id == ""
      || mapping.recipient.inbox.chat_id == ""
      || length mapping.recipient.inbox.token == 0)) [
        | inl invalid ↦ simp (invalid, put_reply) refused
        | inr valid ↦ elim (Option-cases (sealing.seal mapping)) [
          | inl broken ↦ simp (valid, broken, put_reply, insert_reply) refused
          | inr (ciphertext, sealed) ↦
              elim (Bool-cases (
                fails
                || has (reply_key keys mapping id) t.replies
                || not (ltb (length t.replies) record_limit))) [
                  | inl full ↦ simp (valid, sealed, full, put_reply, insert_reply) refused
                  | inr free ↦
                      simp (valid, sealed, free, put_reply, insert_reply)
                        (stored ciphertext sealed
                          (lookup-has (reply_key keys mapping id) t.replies (ground (arith, free))))
                ]
        ]
      ]

step-lookup :
    (keys : Digests) (sealing : Sealing Mapping) (t : PrivateTables) (step : ReplyStep) (k : String)
    (row : SealedRow)
    → PrunesBefore row.expires_at step
    → lookup k t.replies ≡ some row
    → lookup k (reply_after keys sealing t step).replies ≡ some row
step-lookup keys sealing t (prunes now n faults) k row early there =
    prune-replies t now n faults k row early there
step-lookup keys sealing t (puts id mapping now fails) k row early there =
    put_cases (λ out. lookup k out.0.replies ≡ some row) keys sealing t id mapping now fails there
      (λ ciphertext sealed missing.
        rw (lookup-insert (reply_key keys mapping id) k (new_row now ciphertext) t.replies)
          (rw (lookup-differ (reply_key keys mapping id) k t.replies missing there) there))

all_replies-lookup :
    (keys : Digests) (sealing : Sealing Mapping) (t : PrivateTables) (steps : List ReplyStep)
    (k : String) (row : SealedRow)
    → All (PrunesBefore row.expires_at) steps
    → lookup k t.replies ≡ some row
    → lookup k (all_replies keys sealing t steps).replies ≡ some row
unfolding all_replies
all_replies-lookup keys sealing t [] k row early there = there
all_replies-lookup keys sealing t (step ∷ steps) k row early there =
    all_replies-lookup keys sealing (reply_after keys sealing t step) steps k row early.1
      (step-lookup keys sealing t step k row early.0 there)

reply_stored :
    (keys : Digests) (sealing : Sealing Mapping) (t : PrivateTables) (inbox : PrivateInbox)
    (id : String) (mapping : Mapping) (row : SealedRow) (now : ℕ)
    → lookup (keys.inbox_key "reply" inbox id) t.replies ≡ some row
    → now < row.expires_at
    → sealing.unseal row.ciphertext ≡ some mapping
    → reply keys sealing t inbox id now false ≡ present mapping
unfolding reply
reply_stored keys sealing t inbox id mapping row now there early opens =
    let in_time : ltb now row.expires_at ≡ true = ground (arith, early) in
    simp (there, in_time, opens, open_row, opened) refl

-- Within 24 hours a reply to a message whose mapping was stored finds this mapping, whatever was stored
-- in between and whatever expired, when the sealing of the mapping can be undone and the read does not fail.
pub reply-put_reply :
    (keys : Digests) (sealing : Sealing Mapping) (t : PrivateTables) (id : String)
    (mapping : Mapping) (now later : ℕ) (fails : Bool) (steps : List ReplyStep)
    → ((s : String) → sealing.seal mapping ≡ some s → sealing.unseal s ≡ some mapping)
    → (put_reply keys sealing t id mapping now fails).1 ≡ true
    → later < now + reply_ttl
    → All (PrunesBefore (now + reply_ttl)) steps
    → reply keys sealing
        (all_replies keys sealing (put_reply keys sealing t id mapping now fails).0 steps)
        mapping.recipient.inbox
        id
        later
        false
      ≡ present mapping
reply-put_reply keys sealing t id mapping now later fails steps undone stored early pruned =
    put_cases
      (λ out.
        out.1 ≡ true
        → reply keys sealing (all_replies keys sealing out.0 steps) mapping.recipient.inbox id later
            false
          ≡ present mapping)
      keys sealing t id mapping now fails (λ wrong. absurd (ground (arith, wrong)))
      (λ ciphertext sealed missing done.
        reply_stored keys sealing _ mapping.recipient.inbox id mapping (new_row now ciphertext)
          later
          (all_replies-lookup keys sealing _ steps (reply_key keys mapping id)
            (new_row now ciphertext) pruned
            (simp
              (
                lookup-insert (reply_key keys mapping id) (reply_key keys mapping id)
                    (new_row now ciphertext) t.replies,
                ==_refl (reply_key keys mapping id),
              )
              refl))
          early (undone ciphertext sealed))
      stored
