-- ===== src/Lib.antt =====
-- The backend of LimpeJá, a marketplace for cleaning services: a client books a provider, pays by PIX,
-- and the provider withdraws what the ledger holds for them. The development models the parts that
-- decide about money, about the status of a booking and about rewards.
--
-- Paths are from the repository's root.
--
-- Common: Boolean tests, signed integers, searches and sums on lists, results of fallible handlers, and
-- texts. Every other file builds on it.
--
-- Bookings: src/bookings/states/booking.state-machine.ts and src/bookings/booking-status.constants.ts.
-- Bookings/Status has the statuses, the events, `normalizeBookingStatus` and the event machine
-- (`canTransition`, `getNextStatus`); Bookings/Table the tables of statuses, also by role, and their
-- flags; Bookings/Machine compares the two and follows histories of events. A status is an enum here,
-- and an exception is a value.
--
-- Bookings, the service: src/bookings/bookings.service.ts, with `calculateExpectedEnd` of
-- src/bookings/booking-time.utils.ts. Bookings/Rows has the rows and the private helpers
-- (`changeBookingStatus`, `ensureProofRecorded`, `requiresProofGps`); Bookings/Visit the provider's visit
-- (`acceptBooking`, `onTheWayService`, `arriveAtLocation`, `startService`, `completeService`,
-- `autoCompleteOverdueBookings`), with a module per operation and Visit/Course, Visit/Timeline,
-- Visit/History and Visit/Progress for sequences of calls; Bookings/Override is `updateStatus` with what
-- calls it, the route of src/bookings/bookings.controller.ts, `systemChangeStatus`, `cancelBooking`,
-- `reportIssue` and `reportDispute`; Bookings/Dispute is `resolveDispute`, which books into the ledger of
-- Payouts; Bookings/Weekly the weekly limit and its lock; Bookings/Price
-- src/bookings/pricing/price-calculator.ts; Bookings/Actions the actions that
-- src/bookings/booking-actions.helper.ts offers (`getAllowedBookingActions`); Bookings/Proof `submitProof`;
-- Bookings/Slots the hours that bookings take, with `canHoldSlot` of
-- src/availability/availability.service.ts, and Bookings/Create `create`, under the two locks of Locks,
-- and `createBookingFromSubscription`; Bookings/Expiry src/worker/expire-bookings.job.ts. The visit marks
-- coupons by Coupons/Apply. A start of a service returns a store also when it throws, since it sends a
-- notice before its last checks.
--
-- Payouts: src/payouts/payouts.service.ts and the release handler of
-- src/queues/workers/payout.worker.ts. Payouts has the rows, the configuration and the breaker;
-- Payouts/Ledger is `computeBalance`; Payouts/Gateway the breaker around the transfer (`isGatewayHealthy`,
-- `markGatewayFailure`, `markGatewaySuccess`, `initiateGatewayTransfer`, `tryAcquireLock`);
-- Payouts/Withdrawal is `requestWithdrawal`; Payouts/Update has `applyGatewayUpdate`, `processPayout` and
-- the three operations of an administrator; Payouts/Webhook is `handleGatewayWebhook`, which hands the events of
-- orders to the payments service: what that does to the ledger is an argument; Payouts/Hold has
-- `holdBookingForClaim` and the release of a held booking. The answers of the gateway, of the lock and
-- of the rounding of the database are arguments. Amounts in the ledger are cents; limits and fees are in
-- the finer units that Payouts/Withdrawal names, in which the decimals of the configuration are exact.
--
-- Payments: src/payments/payment.state-machine.ts (Payments/Machine),
-- src/payments/payment-intent-locker.ts (Payments/Locker, `claimPaymentIntent`) and `finalizePixPayment`
-- with `buildPixIntentWhere` of src/payments/payments.service.ts (Payments/Settlement), its two webhooks
-- (Payments/Webhook: `handlePaymentWebhook`, `handlePixWebhook`) and `createPixCharge` with
-- `waitForIntentReady` (Payments/Charge), and `initiateRefund` (Payments/Refund); its `approveWithdrawal`
-- and `rejectWithdrawal` are in Payouts/Decision. The statuses of bookings are those of Bookings/Status. A
-- settlement that is processed asks for the change of the booking to CONFIRMED, which the code does after
-- its transaction.
--
-- Subscriptions: src/subscriptions/subscriptions.service.ts (`create`, `update`,
-- `generateRecurringBooking`), whose bookings are asked of Bookings/Create, by a text of the date; Subscriptions/Period has
-- `buildSubscriptionPeriodId`, `getIsoWeekNumber` and `calculateNextGenerationDate`, and
-- Subscriptions/Period/Calendar the part of JavaScript's calendar that these use.
--
-- Availability: `updateAvailability`, `createAvailability` and `deleteAvailability` of
-- src/availability/availability.service.ts, with the days of src/availability/timezone.ts.
--
-- Coupons: src/coupons/coupons.service.ts. Coupons has the rows and `create`; Coupons/Apply has
-- `applyCoupon`, `resolveCoupon` and `markCouponAsUsed`; Coupons/Issue the coupons that the platform
-- issues for missions, returns, referrals and new users, and `getMyCoupons`. The rounding of the binary
-- numbers of prices to cents is an argument of `applyCoupon`, with what is sure of it as its laws.
--
-- Loyalty: src/loyalty/loyalty.service.ts. Loyalty has `addPoints` with its daily limits and the expiry of
-- points; Loyalty/Redeem has `redeemPoints`, which creates its coupon by `create` of Coupons;
-- Loyalty/Balance and Loyalty/Redeem/Laws compare balances and transactions.
--
-- Missions: src/missions/progress.service.ts (Missions/Progress: `trackEvent`, `applyEventToMission`,
-- `recomputeMissionForUser`, the pruning of events) and `claimMission` of
-- src/missions/missions.service.ts (Missions/Claim), which gives its rewards by Coupons/Issue and
-- Loyalty.
--
-- Referrals: `createReferral` of src/referrals/referrals.service.ts, with its coupon by Coupons/Issue.
--
-- Reviews: `canReview` and `submitReview` of src/reviews/reviews.service.ts; a review gives points by
-- Loyalty and an event to Missions.
--
-- Incidents: `createClaim` and `getClaim` of src/incidents/incidents.service.ts; a claim reads the proofs
-- of Bookings and holds the earning by Payouts/Hold.
--
-- Chat: src/chat/chat-rate-limit.service.ts, whose call is two steps, a read and a write.
--
-- Bookings/Create and Chat keep entries in a cache for a number of seconds. How many milliseconds the
-- cache takes one of them for is an argument, since it depends on the package that serves it.
--
-- Locks: src/common/locks/redis-lock.service.ts. Redis is a record of operations with what its manual
-- says of them; Locks/Tests has a concrete one. Bookings/Weekly uses it.
--
-- The store of a component is a record of lists of rows in the order of the table; an operation takes
-- the store and the time and returns the store after it, with the exception as a value where it throws.
-- Prisma's `findUnique` and `findFirst` are the first row that passes, `update` changes the rows with
-- the key. A database transaction is one step: two transactions follow each other in some order, and
-- what happens between them is stated by theorems on two calls. Recursion is on lists but for two cases,
-- in which a number bounds the rounds: the fifteen rounds of `waitForIntentReady`, and the search for the
-- month of a day, for which one round for every 28 days is enough. Both are proved to be enough.
--
-- Not modelled: HTTP, logs, metrics, telemetry and notifications beyond the lists of notices of the
-- payouts and the bookings, since they do not change the rows; the calls of the payment gateway, whose
-- answers are arguments; the remaining services of the repository. In the bookings service, the quote and
-- the lists are left out; of the prices those that multiply in floating point; of the missions the views;
-- in the payments service, the registration of webhooks and the lists; in the coupons service,
-- the update by an administrator; of the availability the view of a day.
pub mod Availability
pub mod Bookings
pub mod Chat
pub mod Common
pub mod Coupons
pub mod Incidents
pub mod Locks
pub mod Loyalty
pub mod Missions
pub mod Payments
pub mod Payouts
pub mod Referrals
pub mod Reviews
pub mod Subscriptions
