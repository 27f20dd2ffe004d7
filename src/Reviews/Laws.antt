-- ===== src/Reviews/Laws.antt =====
-- What a review leaves: reviews/reviews.service.ts.
use limpeja_backend.Common.{
  ℕ, ◌+◌, ◌≤◌, ◌≡◌, refl, Bool, true, false, some, List, [], ◌∷◌, ◌++◌, arith, leb, sym, subst,
}
use limpeja_backend.Common.Lists.{any-last, any, find, filter, length}
use limpeja_backend.Common.Text.{Text}
use limpeja_backend.Common.Outcome.{ok, err, throw_if-ok, >>=-ok}
use limpeja_backend.Loyalty.{LoyaltyError}
use limpeja_backend.Reviews.{
  Booking, Review, Store, already_reviewed, rate_limited, points_refused, check_reviewable,
  compute_expected_end, is_booking, is_review_of, can_review, is_recent, recent_reviews,
  mark_reviewed, review_of, add_review, review_booking, write_review, reward_points, submit_review,
}

review_booking-ok :
    (s : Store) (now : ℕ) (user : Text) (rating : ℕ) (b c : Booking) (t : Store)
    → review_booking s now user rating b ≡ ok (c, t)
    → (check_reviewable now user b ≡ ok tt)
      × (any (is_review_of b.id) s.reviews ≡ false)
      × (leb 3 (recent_reviews s now b.client_id b.provider_id) ≡ false)
      × (c ≡ b)
      × (t ≡ add_review s now b rating)
unfolding review_booking
review_booking-ok s now user rating b c t h =
    let (u, checked, k1) = >>=-ok (check_reviewable now user b) _ h in
    let (fresh, k2) = throw_if-ok (any (is_review_of b.id) s.reviews) already_reviewed _ k1 in
    let (few, k3) =
      throw_if-ok (leb 3 (recent_reviews s now b.client_id b.provider_id)) rate_limited _ k2 in
    (checked, fresh, few, ground arith, ground arith)

find-mark_reviewed :
    (id : ℕ) (bs : List Booking) (b : Booking)
    → find (is_booking id) bs ≡ some b
    → find (is_booking id) (mark_reviewed id bs) ≡ some (record b { is_reviewed = true })
unfolding mark_reviewed
find-mark_reviewed id [] b h = absurd cc
find-mark_reviewed id (c ∷ cs) b h = ground (arith, find-mark_reviewed id cs b)

find_booking-id :
    (id : ℕ) (bs : List Booking) (b : Booking) → find (is_booking id) bs ≡ some b → b.id ≡ id
find_booking-id id [] b h = absurd cc
find_booking-id id (c ∷ cs) b h = ground (arith, find_booking-id id cs b)

length-filter-new :
    (test : Review → Bool) (rs : List Review) (r : Review)
    → length (filter test (rs ++ r ∷ [])) ≤ length (filter test rs) + 1
length-filter-new test [] r = ground arith
length-filter-new test (q ∷ rs) r = ground (arith, length-filter-new test rs r)

check-reviewed :
    (now : ℕ) (user : Text) (b : Booking)
    → check_reviewable now user (record b { is_reviewed = true }) ≡ check_reviewable now user b
unfolding check_reviewable compute_expected_end
check-reviewed now user b = refl

write_review-ok :
    (s : Store) (now : ℕ) (user : Text) (id rating : ℕ) (b c : Booking) (t : Store)
    → find (is_booking id) s.bookings ≡ some b
    → write_review s now user id rating ≡ ok (c, t)
    → review_booking s now user rating b ≡ ok (c, t)
unfolding write_review
write_review-ok s now user id rating b c t found wrote = ground arith

-- Once it has a review, a booking is not offered for another, and refuses it.
added-closes :
    (s : Store) (now : ℕ) (user : Text) (rating : ℕ) (b : Booking) (again : ℕ)
    → find (is_booking b.id) s.bookings ≡ some b
    → check_reviewable now user b ≡ ok tt
    → (can_review (add_review s now b rating) now user b.id ≡ err already_reviewed)
      × (write_review (add_review s now b rating) now user b.id again ≡ err already_reviewed)
unfolding can_review write_review review_booking
added-closes s now user rating b again found checked =
    let read = find-mark_reviewed b.id s.bookings b found in
    let same = check-reviewed now user b in
    let taken : any (is_review_of b.id) (s.reviews ++ review_of s now b rating ∷ []) ≡ true =
      any-last (is_review_of b.id) s.reviews (review_of s now b rating) (ground arith) in
    (simp (read, same, checked) refl, simp (read, same, checked, taken) refl)

-- A review that is written is the first of its booking, leaves the client with at most three of the
-- provider in thirty days, and closes the booking: another one is neither offered nor taken.
pub write_review_lem :
    (s : Store) (now : ℕ) (user : Text) (id rating again : ℕ) (b c : Booking) (t : Store)
    → find (is_booking id) s.bookings ≡ some b
    → write_review s now user id rating ≡ ok (c, t)
    → (any (is_review_of id) s.reviews ≡ false)
      × (recent_reviews t now b.client_id b.provider_id ≤ 3)
      × (can_review t now user id ≡ err already_reviewed)
      × (write_review t now user id again ≡ err already_reviewed)
write_review_lem s now user id rating again b c t found wrote =
    let (checked, fresh, few, _, stored) =
      review_booking-ok s now user rating b c t
        (write_review-ok s now user id rating b c t found wrote) in
    let same : id ≡ b.id = sym (find_booking-id id s.bookings b found) in
    let more =
      length-filter-new (is_recent now b.client_id b.provider_id) s.reviews
        (review_of s now b rating) in
    let under : recent_reviews s now b.client_id b.provider_id ≤ 2 = ground arith in
    let here : find (is_booking b.id) s.bookings ≡ some b =
      subst (λ i. find (is_booking i) s.bookings ≡ some b) same found in
    let closes = added-closes s now user rating b again here checked in
    (
      rw same fresh,
      rw stored (omega (arith, more, under)),
      rw (stored, same) closes.0,
      rw (stored, same) closes.1,
    )

-- When the points of a review are refused the call fails although the review stays, and a second
-- call with the same booking changes nothing: the points are lost.
pub refused_points_are_lost :
    (s : Store) (now : ℕ) (august : Bool) (event : ℕ) (user : Text) (id rating : ℕ) (b c : Booking)
    (t : Store) (e : LoyaltyError)
    → find (is_booking id) s.bookings ≡ some b
    → write_review s now user id rating ≡ ok (c, t)
    → reward_points t now august c s.next_id ≡ err e
    → ((submit_review s now august event user id rating).error ≡ some (points_refused e))
      × ((submit_review s now august event user id rating).store ≡ t)
      × ((submit_review t now august event user id rating).error ≡ some already_reviewed)
      × ((submit_review t now august event user id rating).store ≡ t)
unfolding submit_review
refused_points_are_lost s now august event user id rating b c t e found wrote refused =
    let (_, _, _, again) = write_review_lem s now user id rating rating b c t found wrote in
    (simp (wrote, refused) refl, simp (wrote, refused) refl, simp again refl, simp again refl)
