-- ===== src/Checkout/Expiry.antt =====
-- `flip_expired` and `release_expired` of app/checkout.py. The session's objects are live views of
-- their rows, so each round of a loop reads the row as it stands.
pub mod Keeps
use tilla.Base.{ℕ, ◌+◌, Bool, Option, none, some, List, [], ◌∷◌, map, ltb, leb, if◌then◌else◌}
use tilla.Base.Rows.{select}
use tilla.Models.{
  Order, Status, Db, Env, is_in, pending, underpaid, expired, canceled, order_expired,
  order_released,
}
use tilla.Checkout.Transition.{order_id, get_order}
use tilla.Checkout.Drive.{move_and_log}
use tilla.Checkout.Matching.{expiry}

abbrev pub same : Order → Order
same o = o

abbrev pub on_row : (Order → Db → Db) → Option Order → Db → Db
on_row body none db = db
on_row body (some o) db = body o db

-- `for o in rows: body`, on the live rows of the ids.
unfoldable pub for_rows : (Order → Db → Db) → List ℕ → Db → Db
for_rows body [] db = db
for_rows body (k ∷ ks) db = for_rows body ks (on_row body (get_order k db.orders) db)

-- The end of the payment window: `expires_at`, or for a legacy order creation plus the TTL.
abbrev pub deadline : Env → Order → ℕ
deadline env o = elim o.expires_at [ none ↦ o.created_at + env.order_ttl | some t ↦ t ]

abbrev pub unpaid : List Status
unpaid = pending ∷ underpaid ∷ []

abbrev pub is_overdue : Env → Order → Bool
is_overdue env o = ltb (deadline env o) env.now

unfoldable pub expire_row : Env → Order → Db → Db
expire_row env o db =
    if is_overdue env o then move_and_log o unpaid expired order_expired same db else db

abbrev pub ids_where : (Order → Bool) → List Order → List ℕ
ids_where p orders = map order_id (select p orders)

unfoldable pub flip_expired : Env → Db → Db
unfolding for_rows expire_row
flip_expired env db =
    for_rows (expire_row env) (ids_where (λ o. is_in o.status unpaid) db.orders) db

-- `exp + quarantine <= now`
abbrev pub is_released : Env → Order → Bool
is_released env o = leb (expiry o + env.quarantine) env.now

unfoldable pub release_row : Env → Order → Db → Db
release_row env o db =
    if is_released env o then move_and_log o (expired ∷ []) canceled order_released same db else db

unfoldable pub release_expired : Env → Db → Db
unfolding for_rows release_row
release_expired env db =
    for_rows (release_row env) (ids_where (λ o. is_in o.status (expired ∷ [])) db.orders) db
