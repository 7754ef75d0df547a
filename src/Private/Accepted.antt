-- ===== src/Private/Accepted.antt =====
-- An incoming private message is accepted once.
use message_sync.Base.{
  ℕ, ◌+◌, ◌<◌, Bool, true, false, not, ◌||◌, Option, none, some, String, List, [], ◌∷◌, All, ltb,
  ◌==◌, eq_string, length, has, lookup, insert, lookup-insert, lookup-has, lookup-differ, ==_refl,
  Bool-cases, inl, inr, arith, ◌≡◌, ◌≢◌, refl, sym, ◌∙◌,
}
use message_sync.Router.Registry.{PrivateInbox}
use message_sync.Private.Records.{Digests, PrivateTables, reply_ttl, record_limit, accept_incoming}
use message_sync.Private.Cleanup.{prune}
use message_sync.Private.Kept.{prune-seen}

-- A step of the table of seen messages: a message comes in, or expired rows are deleted.
pub data SeenStep : Type 0 where
  comes : PrivateInbox → String → ℕ → Bool → SeenStep
  pruned : ℕ → ℕ → List Bool → SeenStep

abbrev pub seen_after : Digests → PrivateTables → SeenStep → PrivateTables
seen_after keys t (comes inbox id now fails) = (accept_incoming keys t inbox id now fails).0
seen_after keys t (pruned now n faults) = (prune t now n faults).0

unfoldable pub all_seen : Digests → PrivateTables → List SeenStep → PrivateTables
all_seen keys t [] = t
all_seen keys t (step ∷ steps) = all_seen keys (seen_after keys t step) steps

-- No pruning happens at the time or later.
abbrev pub PrunedBefore : ℕ → SeenStep → Type 0
PrunedBefore expires (comes inbox id now fails) = Unit {0}
PrunedBefore expires (pruned now n faults) = now < expires

-- What an incoming message does.
accept_cases {ℓ} :
    (P : PrivateTables × Option Bool → Type ℓ) (keys : Digests) (t : PrivateTables)
    (inbox : PrivateInbox) (id : String) (now : ℕ) (fails : Bool)
    → P (t, none)
    → P (t, some false)
    → (lookup (keys.inbox_key "incoming" inbox id) t.seen ≡ none
        → P (
          record t { seen = insert (keys.inbox_key "incoming" inbox id) (now + reply_ttl) t.seen },
          some true,
        ))
    → P (accept_incoming keys t inbox id now fails)
unfolding accept_incoming
accept_cases P keys t inbox id now fails failed known new = elim (Bool-cases (id == "" || fails)) [
  | inl bad ↦ simp (bad, accept_incoming) failed
  | inr good ↦
      elim (Bool-cases (
        has (keys.inbox_key "incoming" inbox id) t.seen
        || not (ltb (length t.seen) record_limit))) [
          | inl old ↦ simp (good, old, accept_incoming) known
          | inr fresh ↦
              simp (good, fresh, accept_incoming)
                (new
                  (lookup-has (keys.inbox_key "incoming" inbox id) t.seen (ground (arith, fresh))))
        ]
]

step-lookup :
    (keys : Digests) (t : PrivateTables) (step : SeenStep) (k : String) (expires : ℕ)
    → PrunedBefore expires step
    → lookup k t.seen ≡ some expires
    → lookup k (seen_after keys t step).seen ≡ some expires
step-lookup keys t (pruned now n faults) k expires early there =
    prune-seen t now n faults k expires early there
step-lookup keys t (comes inbox id now fails) k expires early there =
    accept_cases (λ out. lookup k out.0.seen ≡ some expires) keys t inbox id now fails there there
      (λ absent.
        rw (lookup-insert (keys.inbox_key "incoming" inbox id) k (now + reply_ttl) t.seen)
          (rw (lookup-differ (keys.inbox_key "incoming" inbox id) k t.seen absent there) there))

all_seen-lookup :
    (keys : Digests) (t : PrivateTables) (steps : List SeenStep) (k : String) (expires : ℕ)
    → All (PrunedBefore expires) steps
    → lookup k t.seen ≡ some expires
    → lookup k (all_seen keys t steps).seen ≡ some expires
unfolding all_seen
all_seen-lookup keys t [] k expires early there = there
all_seen-lookup keys t (step ∷ steps) k expires early there =
    all_seen-lookup keys (seen_after keys t step) steps k expires early.1
      (step-lookup keys t step k expires early.0 there)

-- After a message was accepted it is not accepted again, whatever comes in between, as long as expired
-- rows are deleted only at times within 24 hours of it.
pub accepted_once :
    (keys : Digests) (t : PrivateTables) (inbox : PrivateInbox) (id : String) (now later : ℕ)
    (fails again : Bool) (steps : List SeenStep)
    → (accept_incoming keys t inbox id now fails).1 ≡ some true
    → All (PrunedBefore (now + reply_ttl)) steps
    → (accept_incoming keys
        (all_seen keys (accept_incoming keys t inbox id now fails).0 steps)
        inbox
        id
        later
        again).1
      ≢ some true
accepted_once keys t inbox id now later fails again steps accepted early =
    accept_cases (λ out. out.1 ≢ some true) keys _ inbox id later again
      (λ wrong. ground (arith, wrong)) (λ wrong. ground (arith, wrong))
      (λ absent wrong. ground (
        arith,
        sym absent
            ∙ all_seen-lookup keys (accept_incoming keys t inbox id now fails).0 steps
                (keys.inbox_key "incoming" inbox id) (now + reply_ttl) early stored,
      ))
  where
    stored :
        lookup
          (keys.inbox_key "incoming" inbox id)
          (accept_incoming keys t inbox id now fails).0.seen
        ≡ some (now + reply_ttl)
    stored =
        accept_cases
          (λ out.
            out.1 ≡ some true
            → lookup (keys.inbox_key "incoming" inbox id) out.0.seen ≡ some (now + reply_ttl))
          keys t inbox id now fails (λ wrong. absurd (ground (arith, wrong)))
          (λ wrong. absurd (ground (arith, wrong)))
          (λ absent done.
            simp
              (
                lookup-insert (keys.inbox_key "incoming" inbox id)
                    (keys.inbox_key "incoming" inbox id) (now + reply_ttl) t.seen,
                ==_refl (keys.inbox_key "incoming" inbox id),
              )
              refl)
          accepted
