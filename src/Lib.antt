-- ===== src/Lib.antt =====
-- Kilo backend: a ride hailing and logistics platform over one double-entry ledger.
--
-- Parts and how they interact. Every movement of money goes through the wallet: the trips of rides
-- and of logistics pay fares and record the commission on cash trips, payments credits top-ups and
-- pays out withdrawals, business charges deliveries and pays invoices, partnerships pays
-- referrals, kilowatt charges its services. Each of these is a posting of balanced debits and
-- credits under a unique reference.
--
-- Files.
-- - Prelude and its children: shared names, signed integers, lists, database tables with a unique
--   key (Table), and what a service method does (Action: it reads and writes the database and
--   returns or throws; a database transaction undoes what was written before a throw; Keeps:
--   invariants).
-- - Wallet.Ledger: the tables Account, Transaction, LedgerEntry and DriverStatus of
--   prisma/schema.prisma. Wallet.Posting: postTransactionEntries and postTransaction of
--   src/wallet/wallet.service.ts. Wallet.Service: the other methods of WalletService that write,
--   each under its own name in snake case. Wallet.History: a call of any of them, and any sequence
--   of calls. The other children of Wallet hold proofs, Wallet.Examples and Wallet.Samples
--   concrete runs.
-- - Prelude.Decimal: decimal.js on numbers that are not negative, with its rounding to kobo.
-- - Pricing.Tariffs, Pricing.Admin and Pricing.Fares: PricingService
--   (src/pricing/pricing.service.ts), its reads through the cache, its writes, and its arithmetic;
--   Pricing.Cache: any history of its calls. Pricing.Specific, Pricing.Choice and Pricing.Unique
--   hold proofs, Pricing.Examples concrete runs.
-- - Payments.Store, Payments.TopUps, Payments.Cards and Payments.Withdrawals: PaymentsService
--   (src/wallet/payments.service.ts) over the ledger of Wallet. Paystack is a record of functions,
--   any of which may fail. Payments.Settlement, Payments.Steps, Payments.Credits, Payments.Closed
--   and Payments.Webhooks hold proofs, Payments.Examples concrete runs.
-- - Rides.Store: the tables of the rides beside ledger, pricing and promos. Rides.Booking:
--   createRide and rateRide of RidesService (src/rides/rides.service.ts). Rides.Dispatch:
--   DispatchService (src/rides/dispatch.service.ts). Rides.Trips: TripService
--   (src/rides/trip.service.ts). Rides.Cancellation: CancellationService
--   (src/rides/cancellation.service.ts). Rides.Race: the single statements of these services as a
--   step relation, for requests that run at once; Rides.Race.Calls takes the methods of
--   DispatchService apart into such steps by the lemmas of Rides.Race.Sequences; Rides.Race.Winner
--   and Rides.Race.Claims hold proofs. Proofs too: Rides.Booked, Rides.Eligible, Rides.Rounds,
--   Rides.Earned, Rides.Once, Rides.Cancelled, Rides.FeeShares, Rides.FeePaid and Rides.Frame;
--   concrete runs: Rides.Examples, Rides.BookingExamples and Rides.Race.Examples.
-- - Accounts.OneTime: OtpService (src/accounts/otp.service.ts); its children Guesses and Burned
--   hold proofs, Accounts.Examples concrete runs.
-- - Common.Idempotency: IdempotencyInterceptor
--   (src/common/interceptors/idempotency.interceptor.ts) over any handler; its child Replay holds
--   proofs, Common.Examples a concrete run.
-- - Common.Csv: toCsv (src/common/utils/csv.util.ts); its child Reading holds a reader of RFC 4180
--   and proofs. Common.Pages: toPaginated (src/common/utils/paginate.util.ts), with its theorem.
-- - Kilowatt.Swaps: BatterySwapService (src/kilowatt/battery-swap.service.ts) over the wallet;
--   Kilowatt.Reserved holds proofs, Kilowatt.Examples concrete runs.
-- - Logistics.Store and Logistics.Trips: LogisticsTripService
--   (src/logistics/logistics-trip.service.ts) over the wallet and the pricing. Logistics.Invoices:
--   payInvoice of BusinessInvoicesService (src/business/business-invoices.service.ts). Proofs:
--   Logistics.Billed, Logistics.Completed, Logistics.Paid and Logistics.Frame; a concrete run:
--   Logistics.Examples.
-- - Partnerships.Referrals: ReferralsService (src/partnerships/referrals.service.ts) over the
--   wallet; Partnerships.Payouts holds proofs, Partnerships.Examples a concrete run.
-- - ServiceAreas: ServiceAreasService (src/service-areas/service-areas.service.ts), its writes and
--   its cached list; ServiceAreas.Rings holds proofs, ServiceAreas.Examples a concrete run.
-- - Promo.Codes: PromoService (src/promo/promo.service.ts), with its theorem; Promo.Examples a
--   run.
--
-- How the code is read. An amount is a whole number of kobo (the columns are `Decimal(18, 2)`),
-- and the sums that decimal.js computes are taken to be exact; the bound of eighteen digits is not
-- modelled. An account stands for its unique pair of owner and type, a transaction for its unique
-- reference. Currency, metadata, log lines, the texts of messages and time stamps are left out. A
-- call runs to its end before the next begins, save in Rides.Race, where single statements of any
-- requests alternate; what a call wrote outside a database transaction stays where it throws
-- later. `Promise.all` starts all its reads, so the accounts of users are created before a missing
-- platform account makes the method throw. All loops of the code are over finite lists, so no
-- definition has fuel.
--
-- Not modelled: routes, sockets, queues, rendering, external services, and the components that the
-- code does not reach from here.
pub mod Prelude
pub mod Pricing
pub mod Wallet
pub mod Payments
pub mod Rides
pub mod ServiceAreas
pub mod Promo
pub mod Accounts
pub mod Common
pub mod Kilowatt
pub mod Logistics
pub mod Partnerships
