-- ===== src/Store/Ledger/Keys.antt =====
-- The composite primary keys of the ledger's tables.
use message_sync.Base.{
  ℕ, String, Bool, true, false, ◌&&◌, ◌==◌, HasEq, eq_string, eq_nat, ◌≡◌, ◌↔◌, arith,
}

pub data StepKind : Type 0 where
  primary companion : StepKind

pub record OpKey : Type 0 where
  pub canonical : String
  pub endpoint : String
  pub kind : String
  pub revision : ℕ

pub record StepKey : Type 0 where
  pub canonical : String
  pub endpoint : String
  pub revision : ℕ
  pub kind : StepKind

-- Two texts: a canonical message and an endpoint, or an endpoint and a remote message.
pub record CopyKey : Type 0 where
  pub first : String
  pub second : String

-- A canonical message, an endpoint and a kind of poll provider.
pub record PollKey : Type 0 where
  pub canonical : String
  pub endpoint : String
  pub provider : String

abbrev pub step_kind_eq : StepKind → StepKind → Bool
step_kind_eq primary primary = true
step_kind_eq companion companion = true
step_kind_eq _ _ = false

abbrev op_key_eq : OpKey → OpKey → Bool
op_key_eq a b =
    a.canonical == b.canonical
    && a.endpoint == b.endpoint
    && a.kind == b.kind
    && a.revision == b.revision

abbrev step_key_eq : StepKey → StepKey → Bool
step_key_eq a b =
    a.canonical == b.canonical
    && a.endpoint == b.endpoint
    && a.revision == b.revision
    && step_kind_eq a.kind b.kind

abbrev copy_key_eq : CopyKey → CopyKey → Bool
copy_key_eq a b = a.first == b.first && a.second == b.second

abbrev poll_key_eq : PollKey → PollKey → Bool
poll_key_eq a b = a.canonical == b.canonical && a.endpoint == b.endpoint && a.provider == b.provider

pub op_key_iff : (a b : OpKey) → (op_key_eq a b ≡ true) ↔ (a ≡ b)
op_key_iff a b = (
  λ h. ground (
    arith,
    eq_string.equal_iff a.canonical b.canonical,
    eq_string.equal_iff a.endpoint b.endpoint,
    eq_string.equal_iff a.kind b.kind,
  ),
  λ h. ground (
    arith,
    eq_string.equal_iff a.canonical b.canonical,
    eq_string.equal_iff a.endpoint b.endpoint,
    eq_string.equal_iff a.kind b.kind,
  ),
)

pub step_key_iff : (a b : StepKey) → (step_key_eq a b ≡ true) ↔ (a ≡ b)
step_key_iff a b = (
  λ h. ground (
    arith,
    eq_string.equal_iff a.canonical b.canonical,
    eq_string.equal_iff a.endpoint b.endpoint,
  ),
  λ h. ground (
    arith,
    eq_string.equal_iff a.canonical b.canonical,
    eq_string.equal_iff a.endpoint b.endpoint,
  ),
)

pub copy_key_iff : (a b : CopyKey) → (copy_key_eq a b ≡ true) ↔ (a ≡ b)
copy_key_iff a b = (
  λ h. ground (arith, eq_string.equal_iff a.first b.first, eq_string.equal_iff a.second b.second),
  λ h. ground (arith, eq_string.equal_iff a.first b.first, eq_string.equal_iff a.second b.second),
)

instance abbrev pub eq_op_key : HasEq OpKey
eq_op_key = record { equal = op_key_eq; equal_iff = op_key_iff }

instance abbrev pub eq_step_key : HasEq StepKey
eq_step_key = record { equal = step_key_eq; equal_iff = step_key_iff }

instance abbrev pub eq_copy_key : HasEq CopyKey
eq_copy_key = record { equal = copy_key_eq; equal_iff = copy_key_iff }

pub poll_key_iff : (a b : PollKey) → (poll_key_eq a b ≡ true) ↔ (a ≡ b)
poll_key_iff a b = (
  λ h. ground (
    arith,
    eq_string.equal_iff a.canonical b.canonical,
    eq_string.equal_iff a.endpoint b.endpoint,
    eq_string.equal_iff a.provider b.provider,
  ),
  λ h. ground (
    arith,
    eq_string.equal_iff a.canonical b.canonical,
    eq_string.equal_iff a.endpoint b.endpoint,
    eq_string.equal_iff a.provider b.provider,
  ),
)

instance abbrev pub eq_poll_key : HasEq PollKey
eq_poll_key = record { equal = poll_key_eq; equal_iff = poll_key_iff }
