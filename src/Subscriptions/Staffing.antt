-- ===== src/Subscriptions/Staffing.antt =====
-- Every history of hiring and of changes of the subscription keeps the technicians of each shop
-- within its seats.
use optimus_os.Base.{
  ℕ, ◌+◌, ◌≡◌, refl, sym, String, true, false, List, [], ◌∷◌, ◌++◌, Option, some, none, Bool-cases,
  inl, inr, if◌then◌else◌, arith, not, ◌==◌, ==_eq, ltb, length, filter, ◌&&◌,
}
use mathlib.Core.Path.{subst}
use optimus_os.Base.Result.{ok, >>=-eq-ok, guard-eq-ok, ok_pair_inj}
use optimus_os.Errors.{Outcome, seat_limit_reached}
use optimus_os.Db.{Db}
use optimus_os.Db.Accounts.{Technician}
use optimus_os.Db.Shops.{ShopSubscription, SubscriptionTier}
use optimus_os.Auth.{AuthContext, effective_shop_id, effective_shop_owner_id, resolve_shop_id}
use optimus_os.Capabilities.{count_active_technician_seats}
use optimus_os.Subscriptions.{
  subscription_of, enforce_technician_seat_limit, create_technician_work, has_room,
}
use optimus_os.Subscriptions.Billing.{
  change_tier_work, subscribe_work, cancel_subscription_work, refresh_work, SquareClient,
}
use optimus_os.Subscriptions.Seats.{
  within_seats, SeatsFit, change_tier_work-SeatsFit, subscribe_work-SeatsFit,
  cancel_subscription_work-SeatsFit, refresh_work-SeatsFit,
}

-- A technician who is hired is one seat more of the shop.
count_hired :
    (key k new_id : ℕ) (rows : List Technician)
    → length (
        filter
          (λ t. t.shop_id == k && not t.is_archived)
          (rows
            ++ record { id = new_id; shop_id = key; user_account_id = none; is_archived = false }
              ∷ []))
      ≡ length (filter (λ t. t.shop_id == k && not t.is_archived) rows)
        + (if key == k then 1 else 0)
count_hired key k new_id [] = ground arith
count_hired key k new_id (t ∷ rows) = ground (arith, count_hired key k new_id rows)

add_zero : (n : ℕ) → n ≡ n + 0
add_zero n = omega arith

has_room-within_seats :
    (seats : ℕ) (limit : Option ℕ)
    → has_room seats limit ≡ ok tt
    → within_seats (seats + 1) limit ≡ true
has_room-within_seats seats none h = refl
has_room-within_seats seats (some limit) h =
    let room : ltb seats limit ≡ true = guard-eq-ok _ (seat_limit_reached limit) h in
    ground (arith, room)

room_for_one :
    (db : Db) (key : ℕ) (p : ShopSubscription)
    → enforce_technician_seat_limit db key ≡ ok tt
    → subscription_of db key ≡ some p
    → within_seats (count_active_technician_seats db key + 1) p.seat_limit ≡ true
unfolding enforce_technician_seat_limit
room_for_one db key p h found =
    has_room-within_seats (count_active_technician_seats db key) p.seat_limit
      (rw (enforce_technician_seat_limit, found) at h)

create_technician_work-SeatsFit :
    (auth : AuthContext) (new_id : ℕ) (normalized : Outcome (Unit {0})) (db : Db) (t : Technician)
    (db' : Db)
    → create_technician_work auth new_id normalized db ≡ ok (t, db')
    → SeatsFit db
    → SeatsFit db'
unfolding create_technician_work resolve_shop_id count_active_technician_seats
create_technician_work-SeatsFit auth new_id normalized db t db' h sound =
    let (key, own, h₁) = >>=-eq-ok (effective_shop_id db auth) _ _ h in
    let (u₂, room, h₂) = >>=-eq-ok (enforce_technician_seat_limit db key) _ _ h₁ in
    let (u₃, e₃, h₃) = >>=-eq-ok normalized _ _ h₂ in
    let (owner, e₄, h₄) = >>=-eq-ok (effective_shop_owner_id db auth) _ _ h₃ in
    let (row, state) = ok_pair_inj _ _ t _ db' refl h₄ in
    subst SeatsFit state (record {
      keys = sound.keys;
      within = λ k p found. elim (Bool-cases (key == k)) [
        | inl e ↦
            let here : subscription_of db key ≡ some p =
              subst (λ n. subscription_of db n ≡ some p) (sym (==_eq key k e)) found in
            let fit = room_for_one db key p room here in
            rw (count_hired key k new_id db.technicians, e)
              (subst
                (λ n. within_seats (count_active_technician_seats db n + 1) p.seat_limit ≡ true)
                (==_eq key k e) fit)
        | inr e ↦
            rw (count_hired key k new_id db.technicians, e)
              (subst (λ n. within_seats n p.seat_limit ≡ true) (add_zero _)
                (sound.within k p found))
      ];
    })

-- One request that succeeds, with what Square answers and what the plans are.
pub data SeatStep : Db → Db → Type 0 where
  hired :
      (auth : AuthContext) (new_id : ℕ) (normalized : Outcome (Unit {0})) (t : Technician)
      {db db' : Db}
      → create_technician_work auth new_id normalized db ≡ ok (t, db')
      → SeatStep db db'
  tier_changed :
      (plans : SubscriptionTier → Option String) (client : Option SquareClient) (auth : AuthContext)
      (tier : SubscriptionTier) (now : ℕ) (p : ShopSubscription) {db db' : Db}
      → change_tier_work plans client auth tier now db ≡ ok (p, db')
      → SeatStep db db'
  subscribed :
      (plans : SubscriptionTier → Option String) (client : SquareClient) (auth : AuthContext)
      (tier : SubscriptionTier) (now : ℕ) (p : ShopSubscription) {db db' : Db}
      → subscribe_work plans client auth tier now db ≡ ok (p, db')
      → SeatStep db db'
  canceled :
      (client : Option SquareClient) (auth : AuthContext) (now : ℕ) (p : ShopSubscription)
      {db db' : Db}
      → cancel_subscription_work client auth now db ≡ ok (p, db')
      → SeatStep db db'
  refreshed :
      (client : SquareClient) (auth : AuthContext) (now : ℕ) (p : ShopSubscription) {db db' : Db}
      → refresh_work client auth now db ≡ ok (p, db')
      → SeatStep db db'

infixl 5 ◌after◌
pub data SeatHistory (start : Db) : Db → Type 0 where
  begin : SeatHistory start start
  ◌after◌ : {db db' : Db} → SeatHistory start db → SeatStep db db' → SeatHistory start db'

SeatStep-SeatsFit : (db db' : Db) → SeatStep db db' → SeatsFit db → SeatsFit db'
SeatStep-SeatsFit db db' (hired auth new_id normalized t h) sound =
    create_technician_work-SeatsFit auth new_id normalized db t db' h sound
SeatStep-SeatsFit db db' (tier_changed plans client auth tier now p h) sound =
    change_tier_work-SeatsFit plans client auth tier now db p db' h sound
SeatStep-SeatsFit db db' (subscribed plans client auth tier now p h) sound =
    subscribe_work-SeatsFit plans client auth tier now db p db' h sound
SeatStep-SeatsFit db db' (canceled client auth now p h) sound =
    cancel_subscription_work-SeatsFit client auth now db p db' h sound
SeatStep-SeatsFit db db' (refreshed client auth now p h) sound =
    refresh_work-SeatsFit client auth now db p db' h sound

-- If the keys of subscriptions are unique and every shop is within the seats of its subscription,
-- then so it is after every history of technicians created and of tiers changed, subscriptions
-- started, canceled and refreshed, by whoever of whatever shop, whatever Square answers.
pub SeatHistory-SeatsFit : (start db : Db) → SeatHistory start db → SeatsFit start → SeatsFit db
SeatHistory-SeatsFit start _ begin sound = sound
SeatHistory-SeatsFit start _ (h after s) sound =
    SeatStep-SeatsFit _ _ s (SeatHistory-SeatsFit start _ h sound)
