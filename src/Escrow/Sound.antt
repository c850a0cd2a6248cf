-- ===== src/Escrow/Sound.antt =====
-- The invariant of the job table, and how one version of a job follows from another.
use tilla.Base.{
  ℕ, ◌≡◌, refl, ◌≢◌, ◌⊎◌, ◌∙◌, inl, inr, Bool, true, false, not, ◌&&◌, Option, none, some, List,
  ◌==◌, leb, is_some, All, Pairs,
}
use tilla.Base.Text.{Text}
use tilla.Base.Keyed.{get, IsUnique}
use tilla.Models.{Store}
use tilla.Payment.{canonical_chain}
use tilla.Checkout.Verify.{Node}
use tilla.Escrow.{
  JobStatus, job_open, budget_set, funded, submitted, completed, cancelled, disputed, CommissionJob,
  Desk, job_id,
}
use tilla.Escrow.Routes.{max_budget_micro}
use tilla.Escrow.Transfer.Sums.{Moved}
use tilla.Escrow.Machine.{◌⟶*◌, here, path_trans}

-- A budget in the range of the route.
abbrev pub is_budget : Option ℕ → Bool
is_budget none = false
is_budget (some n) = not (n == 0) && leb n max_budget_micro

abbrev is_priced : CommissionJob → Bool
is_priced j = is_budget j.budget_micro && is_some j.escrow_addr

abbrev is_deposited : CommissionJob → Bool
is_deposited j = is_some j.funded_tx && is_some j.funded_block

-- The columns that each status has filled.
unfoldable pub stage : JobStatus → CommissionJob → Bool
stage job_open j =
    not (is_some j.budget_micro)
    && (not (is_some j.escrow_addr)
        && (not (is_some j.funded_tx)
            && (not (is_some j.funded_block) && not (is_some j.released_tx))))
stage budget_set j =
    is_priced j
    && (not (is_some j.funded_tx) && (not (is_some j.funded_block) && not (is_some j.released_tx)))
stage funded j = is_priced j && (is_deposited j && not (is_some j.released_tx))
stage submitted j =
    is_priced j && (is_deposited j && (is_some j.deliverable && not (is_some j.released_tx)))
stage completed j =
    is_priced j && (is_deposited j && (is_some j.deliverable && is_some j.released_tx))
stage cancelled j =
    not (is_some j.funded_tx) && (not (is_some j.funded_block) && not (is_some j.released_tx))
stage disputed j = is_priced j && (is_deposited j && not (is_some j.released_tx))

abbrev pub IsFit : CommissionJob → Type 0
IsFit j = stage j.status j ≡ true

-- No hash stands in this column of both rows.
abbrev pub Apart : (CommissionJob → Option Text) → CommissionJob → CommissionJob → Type 0
Apart column x y = (t : Text) → column x ≡ some t → column y ≢ some t

abbrev pub store_key : Store → ℕ
store_key s = s.id

-- `Answers` holds of the nodes that were asked.
module _ (Answers : Node → Type 0) where
  -- A node that was asked showed the deposit: the buyer moved exactly the budget to the escrow.
  pub record Deposit (j : CommissionJob) (tx : Text) : Type 0 where
    pub node : Node
    pub asked : Answers node
    pub moved :
        Moved node canonical_chain tx
          (some j.buyer_addr)
          j.escrow_addr
          j.budget_micro
          none
          j.funded_block

  -- And the release: the escrow moved exactly the budget to the store, no earlier than the deposit.
  pub record Release (stores : List Store) (j : CommissionJob) (tx : Text) : Type 0 where
    pub node : Node
    pub asked : Answers node
    pub store : Store
    pub known : get store_key j.store_id stores ≡ some store
    pub block : Option ℕ
    pub moved :
        Moved node canonical_chain tx j.escrow_addr
          (some store.pay_to)
          j.budget_micro
          j.funded_block
          block

  pub record Evidence (stores : List Store) (j : CommissionJob) : Type 0 where
    pub deposit : (tx : Text) → j.funded_tx ≡ some tx → Deposit j tx
    pub release : (tx : Text) → j.released_tx ≡ some tx → Release stores j tx

  pub record Sound (desk : Desk) : Type 0 where
    pub unique : IsUnique job_id desk.jobs
    pub fit : All IsFit desk.jobs
    pub deposits : Pairs (Apart λ j. j.funded_tx) desk.jobs
    pub releases : Pairs (Apart λ j. j.released_tx) desk.jobs
    pub evidence : All (Evidence desk.stores) desk.jobs

-- A column that is written once.
abbrev pub Kept {ℓ} : {A : Type ℓ} → Option A → Option A → Type ℓ
Kept a b = (a ≡ none) ⊎ (b ≡ a)

Kept-trans {ℓ} : {A : Type ℓ} (a b c : Option A) → Kept a b → Kept b c → Kept a c
Kept-trans a b c (inl e) q = inl e
Kept-trans a b c (inr e) (inl e') = inl (cc (e, e'))
Kept-trans a b c (inr e) (inr e') = inr (e' ∙ e)

-- A later version of a job: the same commission, further along the diagram, with what was agreed
-- and recorded left as it was.
pub record Progress (x y : CommissionJob) : Type 0 where
  pub same_id : y.id ≡ x.id
  pub same_buyer : y.buyer_addr ≡ x.buyer_addr
  pub same_store : y.store_id ≡ x.store_id
  pub same_evaluator : y.evaluator_addr ≡ x.evaluator_addr
  pub path : x.status ⟶* y.status
  pub budget : Kept x.budget_micro y.budget_micro
  pub escrow : Kept x.escrow_addr y.escrow_addr
  pub deposit : Kept x.funded_tx y.funded_tx
  pub depth : Kept x.funded_block y.funded_block
  pub release : Kept x.released_tx y.released_tx

pub Progress-refl : (x : CommissionJob) → Progress x x
Progress-refl x = record {
  same_id = refl;
  same_buyer = refl;
  same_store = refl;
  same_evaluator = refl;
  path = here;
  budget = inr refl;
  escrow = inr refl;
  deposit = inr refl;
  depth = inr refl;
  release = inr refl;
}

pub Progress-trans : (x y z : CommissionJob) → Progress x y → Progress y z → Progress x z
Progress-trans x y z p q = record {
  same_id = q.same_id ∙ p.same_id;
  same_buyer = q.same_buyer ∙ p.same_buyer;
  same_store = q.same_store ∙ p.same_store;
  same_evaluator = q.same_evaluator ∙ p.same_evaluator;
  path = path_trans p.path q.path;
  budget = Kept-trans _ _ _ p.budget q.budget;
  escrow = Kept-trans _ _ _ p.escrow q.escrow;
  deposit = Kept-trans _ _ _ p.deposit q.deposit;
  depth = Kept-trans _ _ _ p.depth q.depth;
  release = Kept-trans _ _ _ p.release q.release;
}
