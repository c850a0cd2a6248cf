-- ===== src/Checkout/Deliver/Keeps.antt =====
-- `deliver` keeps the invariant of the tables.
use tilla.Base.{
  ℕ, ◌≤◌, ◌≡◌, refl, sym, ap, ◌∙◌, subst, Bool, true, Option, none, some, arith, Bool-cases, inl,
  inr, if◌then◌else◌, All, All-intro, ◌==◌, ==_iff, Option-cases,
}
use mathlib.Core.Option.{some-injective}
use tilla.Base.Rows.{update, update-All}
use tilla.Base.Keyed.{get-All, get-key}
use tilla.Base.Zip.{Zip, Zip-refl, update-Zip}
use tilla.Models.{
  is_web, Status, Order, Store, Db, Env, is_in, status_eq, web, confirmed, overpaid, late_paid,
  delivered,
}
use tilla.Checkout.Machine.{◌⟶*◌, here, one, deliver_confirmed, deliver_overpaid, deliver_late}
use tilla.Checkout.Transition.{awaits, moved_to, transition, ready_to_deliver, order_id, get_order}
use tilla.Checkout.Transition.Laws.{stands, transition-wins, get-transition, transition_lost}
use tilla.Checkout.Deliver.{
  stocked, queue_attest, announce, fulfil, fulfil_row, deliver, delivered_now,
}
use tilla.Checkout.Sound.{
  Evolves, Evolves-refl, IsCovered, Sound, Keeps, Keeps-refl, Keeps-trans, funded,
}
use tilla.Checkout.Sound.Steps.{IsFit, evolve-IsSound, transition-Zip, transition-IsSound}
use tilla.Checkout.Sound.Inserts.{insert_delivery-IsSound}

queue_attest-Evolves : (env : Env) (o : Order) → Evolves o (queue_attest env o)
queue_attest-Evolves env o = elim (Bool-cases env.attest_enabled) [
  | inl e ↦ rw e (record {
    same_id = refl;
    same_channel = refl;
    same_pay_to = refl;
    same_network = refl;
    same_expected = refl;
    paid_grows = omega arith;
    path = here;
  })
  | inr e ↦ rw e (Evolves-refl o)
]

queue_attest-IsCovered :
    (env : Env) (o : Order) (db : Db)
    → IsCovered db.transfers o
    → IsCovered db.transfers (queue_attest env o)
queue_attest-IsCovered env o db c = elim (Bool-cases env.attest_enabled) [
  | inl e ↦ rw e (record { credit_le = c.credit_le; enough = c.enough })
  | inr e ↦ rw e c
]

attest-Keeps :
    (env : Env) (p : Order → Bool) (db db' : Db)
    → Sound db
    → db'.orders ≡ update p (queue_attest env) db.orders
    → db'.transfers ≡ db.transfers
    → db'.deliveries ≡ db.deliveries
    → Keeps db db'
attest-Keeps env p db db' s eo et ed =
    let z : Zip Evolves db.orders db'.orders = rw eo (
      update-Zip Evolves Evolves-refl p (queue_attest env) db.orders
        (All-intro _ (λ x e. queue_attest-Evolves env x) db.orders)) in
    let c : All (IsCovered db.transfers) db'.orders = rw eo (
      update-All (IsCovered db.transfers) p (queue_attest env)
        (λ x e h. queue_attest-IsCovered env x db h) db.orders s.covered) in
    record {
      sound = rw (et, ed) (evolve-IsSound db.orders db'.orders db.transfers db.deliveries z c s);
      evolves = z;
    }

announce-Keeps :
    (env : Env) (o : Order) (store : Option Store) (db : Db)
    → Sound db
    → Keeps db (announce env o store db)
unfolding announce
announce-Keeps env o none db s = Keeps-refl db s
announce-Keeps env o (some st) db s = elim (Bool-cases (is_web o.channel)) [
  | inl e ↦ rw e (attest-Keeps env (λ x. x.id == o.id) db _ s refl refl refl)
  | inr e ↦ rw e (Keeps-refl db s)
]

fulfil-Keeps :
    (env : Env) (o : Order) (db : Db)
    → get_order o.id db.orders ≡ some o
    → (o.channel ≡ web → o.expected_micro ≤ o.paid_micro)
    → Sound db
    → Keeps db (fulfil env o db)
unfolding fulfil
fulfil-Keeps env o db found covers s =
    let said =
      announce-Keeps env o _ (stocked env o db)
        (insert_delivery-IsSound db.orders db.transfers db.deliveries o _ found covers s) in
    record { sound = said.sound; evolves = said.evolves }

ready-path : (t : Status) → is_in t ready_to_deliver ≡ true → t ⟶* delivered
unfolding status_eq
ready-path confirmed h = one deliver_confirmed
ready-path overpaid h = one deliver_overpaid
ready-path late_paid h = one deliver_late
ready-path _ h = absurd (ground arith)

ready-funded : (t : Status) → is_in t ready_to_deliver ≡ true → is_in t funded ≡ true
unfolding status_eq
ready-funded confirmed h = refl
ready-funded _ h = ground arith

-- What the winning UPDATE makes of a ready order.
pub delivered_now-IsFit :
    (now : ℕ) (o : Order) (db : Db)
    → IsCovered db.transfers o
    → is_in o.status ready_to_deliver ≡ true
    → IsFit db.transfers o (moved_to delivered (delivered_now now) o)
delivered_now-IsFit now o db c h = record {
  evolves = record {
    same_id = refl;
    same_channel = refl;
    same_pay_to = refl;
    same_network = refl;
    same_expected = refl;
    paid_grows = omega arith;
    path = ready-path o.status h;
  };
  covers = record { credit_le = c.credit_le; enough = λ w _. c.enough w (ready-funded o.status h) };
}

module _ (env : Env) (k : ℕ) (db : Db) (s : Sound db) where
  abbrev marked : Db
  marked = record db {
    orders = (transition k ready_to_deliver delivered (delivered_now env.now) db.orders).0;
  }

  abbrev won : Bool
  won = (transition k ready_to_deliver delivered (delivered_now env.now) db.orders).1

  won-stands :
      won ≡ stands k ready_to_deliver delivered (delivered_now env.now) (get_order k db.orders)
  won-stands =
      transition-wins k ready_to_deliver delivered (delivered_now env.now) db.orders s.orders_unique

  marked-Keeps : (row : Option Order) → get_order k db.orders ≡ row → Keeps db marked
  marked-Keeps none e = record {
    sound = rw (same) s;
    evolves = rw (same) (Zip-refl Evolves Evolves-refl db.orders);
  }
    where
      same : marked.orders ≡ db.orders
      same =
          transition_lost k ready_to_deliver delivered (delivered_now env.now) db.orders
            s.orders_unique
            (won-stands ∙ ap (stands k ready_to_deliver delivered (delivered_now env.now)) e)
  marked-Keeps (some o) e =
      let fit = delivered_now-IsFit env.now o db (get-All order_id _ k db.orders o e s.covered) in
      record {
        sound =
            transition-IsSound k ready_to_deliver delivered (delivered_now env.now) db.orders
              db.transfers db.deliveries o e fit s;
        evolves =
            transition-Zip k ready_to_deliver delivered (delivered_now env.now) db.orders
              db.transfers db.deliveries o e fit s;
      }

  -- The winner's row stands as delivered.
  won-delivered :
      (o : Order) → won ≡ true → get_order k marked.orders ≡ some o → o.status ≡ delivered
  won-delivered o w e = elim (Option-cases (get_order k db.orders)) [
    | inl miss ↦ cc (
      get-transition k ready_to_deliver delivered (delivered_now env.now) (λ o. refl) k db.orders,
      miss,
    )
    | inr (x, hit) ↦
        let ready : is_in x.status ready_to_deliver ≡ true = rw hit at (sym won-stands ∙ w) in
        let new : some o
            ≡ some (
                if awaits k ready_to_deliver x
                then moved_to delivered (delivered_now env.now) x
                else x) =
          rw hit at (
            sym e
            ∙ get-transition k ready_to_deliver delivered (delivered_now env.now) (λ o. refl) k
                db.orders) in
        let moves : awaits k ready_to_deliver x ≡ true =
          rw (ready, (==_iff x.id k).1 (get-key order_id k db.orders x hit)) in
        ap (λ (v : Order). v.status) (some-injective _ _ (rw moves at new))
  ]

  fulfil_row-Keeps :
      (row : Option Order)
      → won ≡ true
      → get_order k marked.orders ≡ row
      → Sound marked
      → Keeps marked (fulfil_row env row marked)
  fulfil_row-Keeps none w e sm = Keeps-refl marked sm
  fulfil_row-Keeps (some o) w e sm =
      let is_k : o.id ≡ k = get-key order_id k marked.orders o e in
      fulfil-Keeps env o marked (subst (λ n. get_order n marked.orders ≡ some o) (sym is_k) e)
        (λ on_web.
          (get-All order_id _ k marked.orders o e sm.covered).enough on_web
            (rw (won-delivered o w e) (unfold status_eq in refl)))
        sm

  -- A call of `deliver` on a database with the invariant, whether it wins the transition or not,
  -- keeps the invariant.
  pub deliver-Keeps : Keeps db (deliver env k db).1
  unfolding deliver
  deliver-Keeps =
      let first = marked-Keeps (get_order k db.orders) refl in
      elim (Bool-cases won) [
        | inl w ↦ rw w (Keeps-trans db marked _ first (fulfil_row-Keeps _ w refl first.sound))
        | inr l ↦ rw l first
      ]
