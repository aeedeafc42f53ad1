-- ===== src/Scheduling/Release.antt =====
-- A cancellation gives its slot back.
use optimus_os.Base.{
  ℕ, String, ◌≡◌, refl, ◌∙◌, Bool, true, false, List, [], ◌∷◌, Option, none, some, ◌&&◌, ◌==◌, ap,
  sym, arith, filter, Bool-cases, inl, inr, All,
}
use optimus_os.Base.Table.{save, Unique}
use optimus_os.Base.Result.{ok}
use optimus_os.Db.{Db}
use optimus_os.Db.Calendar.{Appointment, appointment_id, is_active}
use optimus_os.Auth.{AuthContext}
use optimus_os.Scheduling.{LocalTime, Slot}
use optimus_os.Scheduling.Conflicts.{
  conflicts_of, technician_conflicts, technician_query, technician_overlaps, bay_conflicts,
  bay_query, is_other,
}
use optimus_os.Scheduling.Appointments.{cancel_work}
use optimus_os.Scheduling.Apart.{filter-filter, get-none, filter-congr, All-impl}
use optimus_os.Scheduling.Steps.{cancel_work-CancelStep}

-- Writing back a row that a filter drops is the same as leaving its key out.
filter-save :
    (p q : Appointment → Bool) (r : Appointment) (rows : List Appointment)
    → Unique rows
    → p r ≡ false
    → ((a : Appointment) → (a.id == r.id) ≡ true → q a ≡ false)
    → ((a : Appointment) → (a.id == r.id) ≡ false → p a ≡ q a)
    → filter p (save r rows) ≡ filter q rows
filter-save p q r [] u drops skips agrees = refl
filter-save p q r (a ∷ rows) u drops skips agrees = elim (Bool-cases (a.id == r.id)) [
  | inl e ↦
      let others : All (λ b. (b.id == r.id) ≡ false) rows =
        get-none r.id rows (ground (arith, u.0, e)) in
      rw (e, drops, skips a e)
        (filter-congr p q rows (All-impl _ (λ b. p b ≡ q b) rows agrees others))
  | inr e ↦ rw (e, agrees a e, filter-save p q r rows u.1 drops skips agrees) refl
]

-- The status test of a query drops a row that is not active, whatever else the query asks.
query_drops : (x y u v w z : Bool) → ((x && (y && (false && (u && (v && w))))) && z) ≡ false
query_drops x y u v w z = ground arith

bay_query_drops : (x y u v w : Bool) → (x && (y && (false && (u && (v && w))))) ≡ false
bay_query_drops x y u v w = ground arith

query_skips :
    (x y a u v w z : Bool) → w ≡ false → ((x && (y && (a && (u && (v && w))))) && z) ≡ false
query_skips x y a u v w z h = ground (arith, h)

other_true : (k : ℕ) (a : Appointment) → (a.id == k) ≡ false → is_other none a ≡ is_other (some k) a
other_true k a h = rw h refl

technician_conflicts-save :
    (shop_id : ℕ) (s : Slot) (r : Appointment) (rows : List Appointment)
    → Unique rows
    → is_active r.status ≡ false
    → technician_conflicts shop_id s none (save r rows)
      ≡ technician_conflicts shop_id s (some r.id) rows
unfolding technician_conflicts
technician_conflicts-save shop_id s r rows u inactive =
    filter-filter (technician_query shop_id s none) (technician_overlaps s) (save r rows)
    ∙ filter-save (λ a. technician_query shop_id s none a && technician_overlaps s a)
        (λ a. technician_query shop_id s (some r.id) a && technician_overlaps s a) r rows u
        (ground (arith, inactive))
        (λ a e.
          query_skips (a.shop_id == shop_id) (a.technician_id == s.technician_id)
            (is_active a.status) _ _ (is_other (some r.id) a) (technician_overlaps s a) (rw e refl))
        (λ a e. rw (other_true r.id a e) refl)
    ∙ sym (filter-filter (technician_query shop_id s (some r.id)) (technician_overlaps s) rows)

bay_conflicts-save :
    (shop_id : ℕ) (bay : Option ℕ) (s : Slot) (r : Appointment) (rows : List Appointment)
    → Unique rows
    → is_active r.status ≡ false
    → bay_conflicts shop_id bay s none (save r rows) ≡ bay_conflicts shop_id bay s (some r.id) rows
unfolding bay_conflicts
bay_conflicts-save shop_id none s r rows u inactive = refl
bay_conflicts-save shop_id (some bay) s r rows u inactive =
    filter-save (bay_query shop_id bay s none) (bay_query shop_id bay s (some r.id)) r rows u
      (ground (arith, inactive)) (λ a e. ground (arith, e)) (λ a e. rw (other_true r.id a e) refl)

-- After a cancellation, the conflicts of any slot, for anyone, at any time, are those that it had
-- before without the appointment that was canceled. Keys are asked to be unique.
pub cancel_work-conflicts_of :
    (local : ℕ → LocalTime) (auth : AuthContext) (key : ℕ) (reason : String) (now later shop_id : ℕ)
    (s : Slot) (db : Db) (a' : Appointment) (db' : Db)
    → Unique db.appointments
    → cancel_work auth key reason now db ≡ ok (a', db')
    → conflicts_of local later shop_id s none db' ≡ conflicts_of local later shop_id s (some key) db
unfolding conflicts_of
cancel_work-conflicts_of local auth key reason now later shop_id s db a' db' u h =
    let c = cancel_work-CancelStep auth key reason now db a' db' h in
    let same : a'.id ≡ key = ap (λ r. r.id) c.row ∙ c.found.key_of in
    let inactive : is_active a'.status ≡ false = ap (λ r. is_active r.status) c.row in
    rw
      (
        c.saved,
        c.hours,
        c.blocks,
        technician_conflicts-save shop_id s a' db.appointments u inactive,
        bay_conflicts-save shop_id s.bay_id s a' db.appointments u inactive,
        same,
      )
      refl
