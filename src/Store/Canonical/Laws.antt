-- ===== src/Store/Canonical/Laws.antt =====
-- A source message keeps its canonical message.
use message_sync.Base.{
  Bool, true, false, some, String, List, [], ◌∷◌, none, lookup-differ, Bool-cases, Option-cases,
  inl, inr, ◌≡◌, refl, ap, ◌∙◌, arith, eq_string, lookup, lookup-insert, ==_refl, has, subst,
}
use mathlib.Core.Option.{some-injective}
use message_sync.Store.Cursors.{next_fault, later_faults}
use message_sync.Store.Ledger.{Store}
use message_sync.Store.Ledger.Keys.{CopyKey, eq_copy_key}
use message_sync.Store.Canonical.{
  Source, remote_key, copy_key, valid_source, create_canonical, resolve_or_create_canonical,
}

create_canonical-remote :
    (s created : Store) (candidate : String) (source : Source)
    → create_canonical s candidate source ≡ some created
    → lookup (remote_key source) created.remotes ≡ some candidate
unfolding create_canonical
create_canonical-remote s created candidate source made =
    elim (Bool-cases (has candidate s.canonicals)) [
      | inl there ↦ absurd (ground (arith, simp (there, create_canonical) at made))
      | inr fresh ↦ elim (Bool-cases (has (copy_key candidate source) s.copies)) [
        | inl copied ↦ absurd (ground (arith, simp (fresh, copied, create_canonical) at made))
        | inr free ↦
            subst (λ (x : Store). lookup (remote_key source) x.remotes ≡ some candidate)
              (some-injective _ created (simp (fresh, free, create_canonical) at made))
              (ground (
                arith,
                lookup-insert (remote_key source) (remote_key source) candidate s.remotes,
                ==_refl (remote_key source),
              ))
      ]
    ]

-- What a resolution reports is the canonical message that the table then has for the source.
resolved-remote :
    (s : Store) (candidate id : String) (source : Source) (created : Bool)
    → (resolve_or_create_canonical s candidate source).1 ≡ some (id, created)
    → lookup (remote_key source) (resolve_or_create_canonical s candidate source).0.remotes
      ≡ some id
unfolding resolve_or_create_canonical
resolved-remote s candidate id source created got =
    elim (Bool-cases (valid_source candidate source)) [
      | inr wrong ↦ absurd (ground (arith, simp (wrong, resolve_or_create_canonical) at got))
      | inl valid ↦ elim (Bool-cases (next_fault s.faults)) [
        | inl bad ↦ absurd (ground (arith, simp (valid, bad, resolve_or_create_canonical) at got))
        | inr good ↦ elim (Option-cases (lookup (remote_key source) s.remotes)) [
          | inr (old, there) ↦
              simp (valid, good, there, resolve_or_create_canonical)
                (ap some (
                  ap (λ (p : String × Bool). p.0)
                    (some-injective (old, false) (id, created)
                      (simp (valid, good, there, resolve_or_create_canonical) at got))))
          | inl absent ↦
              elim (Option-cases
                (create_canonical (record s { faults = later_faults s.faults }) candidate source)) [
                  | inl failed ↦ absurd (
                      ground (
                        arith,
                        simp (valid, good, absent, failed, resolve_or_create_canonical) at got,
                      ))
                  | inr (s', made) ↦
                      simp (valid, good, absent, made, resolve_or_create_canonical)
                        (create_canonical-remote _ s' candidate source made
                          ∙ ap some (
                              ap (λ (p : String × Bool). p.0)
                                (some-injective (candidate, true) (id, created)
                                  (simp (valid, good, absent, made, resolve_or_create_canonical) at
                                    got))))
                ]
        ]
      ]
    ]

answered :
    (s : Store) (later id : String) (source : Source)
    → lookup (remote_key source) s.remotes ≡ some id
    → next_fault s.faults ≡ false
    → valid_source later source ≡ true
    → (resolve_or_create_canonical s later source).1 ≡ some (id, false)
unfolding resolve_or_create_canonical
answered s later id source there reliable valid =
    simp (valid, reliable, there, resolve_or_create_canonical) refl

-- A transaction that creates leaves the other sources alone.
create_canonical_keeps :
    (s created : Store) (candidate id : String) (source : Source) (k : CopyKey)
    → create_canonical s candidate source ≡ some created
    → lookup (remote_key source) s.remotes ≡ none
    → lookup k s.remotes ≡ some id
    → lookup k created.remotes ≡ some id
unfolding create_canonical
create_canonical_keeps s created candidate id source k made absent there =
    elim (Bool-cases (has candidate s.canonicals)) [
      | inl used ↦ absurd (ground (arith, simp (used, create_canonical) at made))
      | inr fresh ↦ elim (Bool-cases (has (copy_key candidate source) s.copies)) [
        | inl copied ↦ absurd (ground (arith, simp (fresh, copied, create_canonical) at made))
        | inr free ↦
            subst (λ (x : Store). lookup k x.remotes ≡ some id)
              (some-injective _ created (simp (fresh, free, create_canonical) at made))
              (rw
                (
                  lookup-insert (remote_key source) k candidate s.remotes,
                  lookup-differ (remote_key source) k s.remotes absent there,
                )
                there)
      ]
    ]

resolve_or_create_canonical_keeps :
    (s : Store) (candidate id : String) (source : Source) (k : CopyKey)
    → lookup k s.remotes ≡ some id
    → lookup k (resolve_or_create_canonical s candidate source).0.remotes ≡ some id
unfolding resolve_or_create_canonical
resolve_or_create_canonical_keeps s candidate id source k there =
    elim (Bool-cases (valid_source candidate source)) [
      | inr wrong ↦ simp (wrong, resolve_or_create_canonical) there
      | inl valid ↦ elim (Bool-cases (next_fault s.faults)) [
        | inl bad ↦ simp (valid, bad, resolve_or_create_canonical) there
        | inr good ↦ elim (Option-cases (lookup (remote_key source) s.remotes)) [
          | inr (old, found) ↦ simp (valid, good, found, resolve_or_create_canonical) there
          | inl absent ↦
              let s' : Store = record s { faults = later_faults s.faults } in
              elim (Option-cases (create_canonical s' candidate source)) [
                | inl failed ↦ simp (valid, good, absent, failed, resolve_or_create_canonical) there
                | inr (created, made) ↦
                    simp (valid, good, absent, made, resolve_or_create_canonical)
                      (create_canonical_keeps s' created candidate id source k made absent there)
              ]
        ]
      ]
    ]

-- Resolutions one after the other, each with the id it proposes.
unfoldable pub resolve_all : Store → List (String × Source) → Store
resolve_all s [] = s
resolve_all s ((candidate, source) ∷ rest) =
    resolve_all (resolve_or_create_canonical s candidate source).0 rest

resolve_all_keeps :
    (s : Store) (others : List (String × Source)) (id : String) (k : CopyKey)
    → lookup k s.remotes ≡ some id
    → lookup k (resolve_all s others).remotes ≡ some id
unfolding resolve_all
resolve_all_keeps s [] id k there = there
resolve_all_keeps s ((candidate, source) ∷ rest) id k there =
    resolve_all_keeps (resolve_or_create_canonical s candidate source).0 rest id k
      (resolve_or_create_canonical_keeps s candidate id source k there)

-- Once a source message has a canonical message, found or created, then after any further resolutions,
-- of any messages and with any failures, a resolution of it that the database answers gives the same one
-- and creates nothing, whatever new id is proposed. Nothing but resolutions happens in between.
pub resolve_or_create_canonical-stable :
    (s : Store) (candidate later id : String) (source : Source) (created : Bool)
    (others : List (String × Source))
    → (resolve_or_create_canonical s candidate source).1 ≡ some (id, created)
    → next_fault (resolve_all (resolve_or_create_canonical s candidate source).0 others).faults
      ≡ false
    → valid_source later source ≡ true
    → (resolve_or_create_canonical
        (resolve_all (resolve_or_create_canonical s candidate source).0 others)
        later
        source).1
      ≡ some (id, false)
resolve_or_create_canonical-stable s candidate later id source created others got reliable valid =
    answered _ later id source
      (resolve_all_keeps _ others id (remote_key source)
        (resolved-remote s candidate id source created got))
      reliable valid
