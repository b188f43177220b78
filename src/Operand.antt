-- ===== src/Operand.antt =====
-- operator/v1/operand: the operand interface, the two ways to call an operand, the order of
-- execution and the requeue strategy of a step.
pub mod Calls
pub mod Reverse
use operator_toolkit.Prelude.{
  ℕ, String, Bool, true, false, not, Option, none, some, List, [], ◌∷◌, ◌++◌, ◌≡◌, ◌||◌, any,
  if◌then◌else◌,
}

pub data RequeueStrategy : Type 0 where
  requeue_on_error requeue_always : RequeueStrategy

-- What the program takes from the error values: `kerrors.NewAggregate` of two errors that may be nil,
-- `fmt.Errorf` around `ErrNotReady` with an operand's name, and `errors.Is(err, ErrNotReady)`.
pub record Errors (E : Type 0) : Type 0 where
  pub new_aggregate : Option E → Option E → Option E
  pub not_ready : String → E
  pub is_not_ready : E → Bool

abbrev pub is_some {ℓ} : {A : Type ℓ} → Option A → Bool
is_some none = false
is_some (some a) = true

abbrev pub holds {ℓ} : {A : Type ℓ} → (A → Bool) → Option A → Bool
holds p none = false
holds p (some a) = p a

-- The documented behaviour: an aggregate is nil where both parts are, and is a not-ready error where
-- one of its parts is; the wrapped `ErrNotReady` is one.
pub record IsErrors {E : Type 0} (errors : Errors E) : Type 0 where
  pub aggregate_some :
      (a b : Option E) → is_some (errors.new_aggregate a b) ≡ (is_some a || is_some b)
  pub aggregate_is :
      (a b : Option E)
      → holds errors.is_not_ready (errors.new_aggregate a b)
        ≡ (holds errors.is_not_ready a || holds errors.is_not_ready b)
  pub not_ready_is : (n : String) → errors.is_not_ready (errors.not_ready n) ≡ true

-- The pair of an event and an error that a call returns, either of which may be nil.
pub record Reply (Ev E : Type 0) : Type 0 where
  pub event : Option Ev
  pub error : Option E

-- An operand. Its methods act on the world `W`: the cluster, the object and the context.
pub record Operand (Ev E W : Type 0) : Type 0 where
  pub name : String
  pub requires : List String
  pub ensure : W → Reply Ev E × W
  pub delete : W → Reply Ev E × W
  pub requeue_strategy : RequeueStrategy
  pub ready_check : W → (Bool × Option E) × W
  pub post_ready : W → Option E × W

abbrev pub OperandOrder : (Ev E W : Type 0) → Type 0
OperandOrder Ev E W = List (List (Operand Ev E W))

abbrev pub RunCall : (Ev E W : Type 0) → Type 0
RunCall Ev E W = Operand Ev E W → W → Reply Ev E × W

module _ {Ev E W : Type 0} where
  abbrev failed : E → W → Reply Ev E × W
  failed e w = (record { event = none; error = some e }, w)

  module _ (errors : Errors E) (op : Operand Ev E W) where
    -- The end of `CallEnsure`, from the call of `PostReady`.
    unfoldable pub call_post_ready : Option Ev → W → Reply Ev E × W
    call_post_ready event w =
        let (err, w') = op.post_ready w in
        elim err [ some e ↦ failed e w' | none ↦ (record { event = event; error = none }, w') ]

    -- From the call of `ReadyCheck`.
    unfoldable pub call_ready_check : Option Ev → W → Reply Ev E × W
    unfolding call_post_ready
    call_ready_check event w =
        let ((ready, ready_err), w') = op.ready_check w in
        elim ready_err [
          | some e ↦ failed e w'
          | none ↦
              if not ready then failed (errors.not_ready op.name) w' else call_post_ready event w'
        ]

    unfoldable pub call_ensure : W → Reply Ev E × W
    unfolding call_ready_check
    call_ensure w =
        let (reply, w') = op.ensure w in
        elim reply.error [ some e ↦ failed e w' | none ↦ call_ready_check reply.event w' ]

  unfoldable pub call_cleanup : Operand Ev E W → W → Reply Ev E × W
  call_cleanup op w = op.delete w

  unfoldable pub step_requeue_strategy : List (Operand Ev E W) → RequeueStrategy
  step_requeue_strategy [] = requeue_on_error
  step_requeue_strategy (o ∷ step) = elim o.requeue_strategy [
    | requeue_always ↦ requeue_always
    | requeue_on_error ↦ step_requeue_strategy step
  ]
