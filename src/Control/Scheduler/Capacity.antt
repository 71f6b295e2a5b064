-- ===== src/Control/Scheduler/Capacity.antt =====
-- The slots of a day under every reservation: what each lane is charged, and how loans are made.
use new_z.Prelude.{
  ℕ, suc, ◌+◌, ◌≤◌, ◌<◌, ◌≡◌, refl, ap, ◌∙◌, Bool, true, false, ◌&&◌, none, some, List, [], ◌∷◌,
  ◌++◌, arith, String, ◌==◌, string_eq, if◌then◌else◌, length, length-select-append_one,
  every-append_one, &&_iff, select, every, Bool-cases, Option-cases, inl, inr,
}
use mathlib.Core.Path.{subst}
use new_z.Domain.Operations.{ReadLane, read_lane_eq}
use new_z.Control.Budget.{DailyBudget, is_available, availability}
use new_z.Control.Budget.Laws.{slots, charged, lender, IsLoan, lender-availability}
use new_z.Control.Ledger.{ReservationRow, Ledger}
use new_z.Control.Scheduler.{
  Request, used_by_lane, find_key, refuse, insert_rows, reservation_row, is_taken, commit, precheck,
  reserve,
}

-- A loan in the table is verification's, from correction.
abbrev pub is_loan : ReservationRow → Bool
is_loan row = elim row.borrowed_from [
  | none ↦ true
  | some b ↦ row.lane == ReadLane.verification && b == ReadLane.correction
]

-- On every day each lane is charged no more slots than it has, and the loans are the permitted one.
pub record WithinBudget (budget : DailyBudget) (rows : List ReservationRow) : Type 0 where
  pub within : (day : String) (lane : ReadLane) → used_by_lane rows day lane ≤ slots budget lane
  pub loans : every is_loan rows ≡ true

-- The reservation is charged to the lane on the day.
abbrev is_charged : String → ReadLane → ReservationRow → Bool
is_charged day lane row = row.local_day == day && charged row.lane row.borrowed_from == lane

used_by_lane-append :
    (rows : List ReservationRow) (row : ReservationRow) (day : String) (lane : ReadLane)
    → used_by_lane (rows ++ row ∷ []) day lane ≡ (
        if is_charged day lane row
        then suc (used_by_lane rows day lane)
        else used_by_lane rows day lane)
unfolding used_by_lane
used_by_lane-append rows row day lane = length-select-append_one (is_charged day lane) rows row

within-append :
    (budget : DailyBudget) (rows : List ReservationRow) (row : ReservationRow) (day : String)
    (lane : ReadLane)
    → used_by_lane rows day lane ≤ slots budget lane
    → used_by_lane rows row.local_day (charged row.lane row.borrowed_from)
      < slots budget (charged row.lane row.borrowed_from)
    → used_by_lane (rows ++ row ∷ []) day lane ≤ slots budget lane
within-append budget rows row day lane w free = elim (Bool-cases (is_charged day lane row)) [
  | inl here ↦
      let (d, l) =
        (&&_iff (row.local_day == day) (charged row.lane row.borrowed_from == lane)).0 here in
      let same_day = (string_eq.beq_iff row.local_day day).0 d in
      let same_lane = (read_lane_eq.beq_iff (charged row.lane row.borrowed_from) lane).0 l in
      rw (used_by_lane-append rows row day lane, here)
        (subst (λ x. used_by_lane rows x lane < slots budget lane) same_day
          (subst (λ x. used_by_lane rows row.local_day x < slots budget x) same_lane free))
  | inr other ↦ rw (used_by_lane-append rows row day lane, other) w
]

append-WithinBudget :
    (budget : DailyBudget) (rows : List ReservationRow) (row : ReservationRow)
    → WithinBudget budget rows
    → used_by_lane rows row.local_day (charged row.lane row.borrowed_from)
      < slots budget (charged row.lane row.borrowed_from)
    → is_loan row ≡ true
    → WithinBudget budget (rows ++ row ∷ [])
append-WithinBudget budget rows row w free loan = record {
  within = λ day lane. within-append budget rows row day lane (w.within day lane) free;
  loans = every-append_one is_loan rows row ∙ rw (w.loans, loan) refl;
}

is_loan_of :
    (budget : DailyBudget) (used : ReadLane → ℕ) (row : ReservationRow)
    → IsLoan budget used row.lane row.borrowed_from
    → is_loan row ≡ true
is_loan_of budget used row h = elim (Option-cases row.borrowed_from) [
  | inl none_lent ↦ ground arith
  | inr (b, lent) ↦ ground arith
]

-- The block under the lock keeps the day within the budget, whatever the ledger has become since it
-- was checked.
pub commit-WithinBudget :
    (store : Ledger) (r : Request)
    → WithinBudget r.budget store.reservations
    → WithinBudget r.budget (commit store r).0.reservations
unfolding commit insert_rows refuse
commit-WithinBudget store r w =
    let used = used_by_lane store.reservations r.local_day in
    elim (Bool-cases (is_available (availability r.lane used r.budget))) [
      | inr full ↦ rw full w
      | inl room_left ↦ elim (Option-cases (find_key store.operations r.idempotency_key)) [
        | inr (row, held) ↦ rw (room_left, held) w
        | inl fresh ↦ elim (Bool-cases (is_taken store r)) [
          | inl taken ↦ rw (room_left, fresh, taken) w
          | inr free ↦
              let (room, loan) = lender-availability r.lane used r.budget room_left in
              rw (room_left, fresh, free)
                (append-WithinBudget r.budget store.reservations
                  (reservation_row r (lender (availability r.lane used r.budget))) w room
                  (is_loan_of r.budget used
                    (reservation_row r (lender (availability r.lane used r.budget))) loan))
        ]
      ]
    ]

-- So does a reservation, and a refused one changes no reservation.
pub reserve-WithinBudget :
    (would_exceed : Ledger → String → String → String) (store : Ledger) (r : Request)
    → WithinBudget r.budget store.reservations
    → WithinBudget r.budget (reserve would_exceed store r).0.reservations
unfolding reserve refuse
reserve-WithinBudget would_exceed store r w =
    elim (Option-cases (find_key store.operations r.idempotency_key)) [
      | inr (row, held) ↦ rw (held, reserve) w
      | inl fresh ↦ elim (Option-cases (precheck would_exceed store r)) [
        | inr (reason, why) ↦ rw (fresh, why, reserve) w
        | inl clear ↦ rw (fresh, clear, reserve) (commit-WithinBudget store r w)
      ]
    ]

-- The reservations of a day.
abbrev pub on_day : String → List ReservationRow → List ReservationRow
on_day day rows = select (λ row. row.local_day == day) rows

used_by_lane-cons :
    (rows : List ReservationRow) (row : ReservationRow) (day : String) (lane : ReadLane)
    → used_by_lane (row ∷ rows) day lane ≡ (
        if is_charged day lane row
        then suc (used_by_lane rows day lane)
        else used_by_lane rows day lane)
unfolding used_by_lane
used_by_lane-cons rows row day lane =
    ap length (select-cons (is_charged day lane) row rows)
    ∙ length-if (is_charged day lane row) row _
  where
    select-cons :
        (p : ReservationRow → Bool) (x : ReservationRow) (xs : List ReservationRow)
        → select p (x ∷ xs) ≡ (if p x then x ∷ select p xs else select p xs)
    select-cons p x xs = refl

    length-if :
        (b : Bool) (x : ReservationRow) (xs : List ReservationRow)
        → length (if b then x ∷ xs else xs) ≡ (if b then suc (length xs) else length xs)
    length-if true x xs = refl
    length-if false x xs = refl

-- One more read is one more of its lane.
one_more :
    (c : ReadLane) (a b k : ℕ)
    → suc (a + b + k)
      ≡ (if c == ReadLane.discovery then suc a else a)
        + (if c == ReadLane.verification then suc b else b)
        + (if c == ReadLane.correction then suc k else k)
one_more ReadLane.discovery a b k = omega arith
one_more ReadLane.verification a b k = omega arith
one_more ReadLane.correction a b k = omega arith

-- The lanes share out the reservations of a day.
length-on_day :
    (rows : List ReservationRow) (day : String)
    → length (on_day day rows)
      ≡ used_by_lane rows day ReadLane.discovery
        + used_by_lane rows day ReadLane.verification
        + used_by_lane rows day ReadLane.correction
unfolding used_by_lane
length-on_day [] day = refl
length-on_day (row ∷ rows) day =
    rw
      (
        used_by_lane-cons rows row day ReadLane.discovery,
        used_by_lane-cons rows row day ReadLane.verification,
        used_by_lane-cons rows row day ReadLane.correction,
      )
      (elim (Bool-cases (row.local_day == day)) [
        | inl here ↦ rw here (
            ap suc (length-on_day rows day)
            ∙ one_more (charged row.lane row.borrowed_from)
                (used_by_lane rows day ReadLane.discovery)
                (used_by_lane rows day ReadLane.verification)
                (used_by_lane rows day ReadLane.correction))
        | inr there ↦ rw there (length-on_day rows day)
      ])

charged_of_discovery :
    (row : ReservationRow)
    → is_loan row ≡ true
    → (row.lane == ReadLane.discovery) ≡ true
    → (charged row.lane row.borrowed_from == ReadLane.discovery) ≡ true
charged_of_discovery row h k = elim (Option-cases row.borrowed_from) [
  | inl none_lent ↦ ground arith
  | inr (b, lent) ↦ ground arith
]

le_if : (b : Bool) {n m : ℕ} → n ≤ m → n ≤ (if b then suc m else m)
le_if true h = omega arith
le_if false h = h

-- A discovery read is charged to discovery.
discovery-charged :
    (rows : List ReservationRow) (day : String)
    → every is_loan rows ≡ true
    → length (select (λ row. row.lane == ReadLane.discovery) (on_day day rows))
      ≤ used_by_lane rows day ReadLane.discovery
unfolding used_by_lane
discovery-charged [] day h = omega arith
discovery-charged (row ∷ rows) day h =
    let (loan, rest) = (&&_iff (is_loan row) (every is_loan rows)).0 h in
    let ih = discovery-charged rows day rest in
    rw (used_by_lane-cons rows row day ReadLane.discovery)
      (elim (Bool-cases (row.local_day == day)) [
        | inr there ↦ rw there ih
        | inl here ↦ elim (Bool-cases (row.lane == ReadLane.discovery)) [
          | inl k ↦ rw (here, k, charged_of_discovery row loan k) (omega (arith, ih))
          | inr k ↦
              rw (here, k) (le_if (charged row.lane row.borrowed_from == ReadLane.discovery) ih)
        ]
      ])

-- Within a budget a day has at most as many reservations as the lanes have slots, and at most as
-- many of discovery as discovery has.
pub WithinBudget-day :
    (budget : DailyBudget) (rows : List ReservationRow) (day : String)
    → WithinBudget budget rows
    → (length (on_day day rows)
        ≤ slots budget ReadLane.discovery
          + slots budget ReadLane.verification
          + slots budget ReadLane.correction)
      × (length (select (λ row. row.lane == ReadLane.discovery) (on_day day rows))
          ≤ slots budget ReadLane.discovery)
WithinBudget-day budget rows day w = (
  omega (
    arith,
    length-on_day rows day,
    w.within day ReadLane.discovery,
    w.within day ReadLane.verification,
    w.within day ReadLane.correction,
  ),
  omega (arith, discovery-charged rows day w.loans, w.within day ReadLane.discovery),
)
