-- ===== src/Lib.antt =====
-- The core services of the OBS (student information system) backend: what the service classes under
-- src/services do to the tables of the database, and what keeps those tables right.
--
-- A table is a list of rows and a component's state is a record of tables. Ids (UUIDV4) are natural
-- numbers taken from a counter, so a created row has a fresh id; rows are created at the front. A
-- service call that opens a database transaction is a function to `Result`: `ok` with the committed
-- state, or `err` with the thrown error, after which the tables are as before (`committed`). Logging
-- and notifications (mail, push, sockets) leave the tables alone and are not modelled. Times and
-- dates are arguments. Calls run one after another; what two open transactions could see of each
-- other is not modelled. Texts of the form "HH:MM" are hours and minutes.
--
-- Numbers: money is in kuruş as an integer of either sign, marks are hundredths, grade points are
-- tenths and grade point averages are hundredths. The columns are DECIMAL. The weighted average of
-- marks and the quotient of a grade point average are doubles, rounded as IEEE 754 says
-- (`Base.Doubles`; `Base.Rounding` bounds them). Sums of money are exact: the columns have two places,
-- which the error of a sum in the source does not reach.
--
-- Base: shared names; `Base.Tables` has the queries (`find` is findOne and findByPk, `filter` is
--   findAll, `any` and `count` ask for rows, `update_where` and `delete_where` change them),
--   `Base.Int` the integers and `Base.Keys` the lemmas on rows whose ids fall along a table.
-- Wallet: src/services/walletService.js and src/services/paymentService.js on the tables of
--   src/models/Wallet.js and src/models/Transaction.js. `Wallet.Balance` sums transactions,
--   `Wallet.Invariant` has the books' invariant for each write,
--   `Wallet.Operations` for the operations and `Wallet.Payments` the single payment;
--   `Wallet.Charge` is the payment that other services make from a wallet in their transaction.
-- Classroom: src/services/reservationService.js on src/models/Reservation.js.
-- Grade: src/services/gradeCalculationService.js on the grade columns of
--   src/models/Enrollment.js, joined with the term and the credits of the course.
-- School: the tables that the enrollment services share, a section of src/models/CourseSection.js,
--   an enrollment, a prerequisite and a schedule entry.
-- Prerequisite: src/services/prerequisiteService.js. The depth-first search takes fuel, two more
--   than the rows of the prerequisite table, which is shown to be enough: every nested call is on a
--   prerequisite that was not visited, so the rows with an unvisited prerequisite get fewer. A query
--   with no order takes the first row of the table.
-- Conflict: src/services/scheduleConflictService.js, the overlap of weekly slots and the conflicts of
--   a section with a student's term.
-- Enrollments: src/services/enrollmentService.js on those tables; it calls `Prerequisite` and
--   `Conflict`. `Enrollments.Seats` counts seats under a saved row, `Enrollments.Capacity` has the
--   seat invariant for each write, `Enrollments.Calls` runs sequences of calls on it,
--   `Enrollments.Single` and `Enrollments.Offerings` keep open enrollments apart,
--   `Enrollments.Moves` and `Enrollments.Life` have the history of the rows, and
--   `Enrollments.Admission`, `Enrollments.Eligibility` and `Enrollments.Request` the conditions of a
--   request and the check before it.
-- Events: src/services/eventService.js on src/models/Event.js and src/models/EventRegistration.js,
--   with the fee taken by `Wallet.Charge`. `Events.Waitlist` is about the order of the waitlist,
--   `Events.Places` about counts and free places, `Events.Invariant` and `Events.Cancel` about each
--   operation, `Events.Calls` about sequences of them and `Events.Fees` about single calls.
-- Meals: src/services/mealService.js on src/models/MealMenu.js and src/models/MealReservation.js, with
--   the price taken by `Wallet.Charge`. `Meals.Kept` has each operation, `Meals.Final` sequences of
--   them, `Meals.Transfer` the transfer and `Meals.Fees` what a cancelled reservation costs.
--
-- Scheduling: src/services/schedulingService.js. The backtracking solver passes its assignments and its
--   sets of used slots on as a state; `Scheduling.Marks` is about those sets, `Scheduling.Timetable`
--   says what a timetable is, `Scheduling.Backtrack` and `Scheduling.Solution` relate the search to it.
--   The recursion is on the sections. `Scheduling.Genetic` is the genetic algorithm, whose random
--   numbers are an argument: a sequence of multiples of 2^-53, of which `index_below` takes an index;
--   `Scheduling.Genetic.Sections` keeps a gene for each section and `Scheduling.Genetic.Fitness`
--   reads the fitness. The 100 generations are the recursion. `Scheduling.Generate` is the call that
--   uses both and saves rows.
-- Accounts: src/services/authService.js with src/utils/jwt.js, src/utils/password.js and
--   src/middleware/auth.js. The packages jsonwebtoken and bcrypt are a record of functions
--   (`Packages`), what they document is `IsLawful`. These calls open no transaction, except
--   `register`: a call returns its answer or error together with the tables (`Reply`).
--   `Accounts.Login` has the lock (`Login.Lockout`) and the sessions (`Login.Sessions`),
--   `Accounts.Reset` the forgotten password, `Accounts.Registration` new accounts,
--   `Accounts.Middleware` the checks of a request, and `Accounts.Calls` sequences of calls.
-- Attendance: src/services/attendanceService.js, src/controllers/attendanceController.js and
--   src/controllers/excuseController.js on src/models/AttendanceSession.js,
--   src/models/AttendanceRecord.js and src/models/ExcuseRequest.js. `Attendance.Sessions` opens and
--   closes sessions, `Attendance.Excuses` has the requests to be excused and `Attendance.Report` the
--   statistics; `Attendance.CheckIns` is about the check-in, `Attendance.Settled`,
--   `Attendance.Writes` and `Attendance.Openings` about each write, `Attendance.Settles` about each
--   call, `Attendance.Calls` about sequences of calls and `Attendance.Percentage` about the statistics
--   after them. The great-circle distance and the analysis of the sensors, which are floating-point,
--   are arguments. The controllers send their refusals as responses, which are the errors here; they
--   write after all their checks.
--
-- Not modelled: the other controllers, most of which parse requests and pass them on, and the
-- routes, mail, SMS, push and sockets (pure output), logging, caching, rate limits, reports and exports,
-- seeders and scripts.
pub mod Base
pub mod Wallet
pub mod Classroom
pub mod Grade
pub mod School
pub mod Prerequisite
pub mod Conflict
pub mod Enrollments
pub mod Events
pub mod Meals
pub mod Scheduling
pub mod Accounts
pub mod Attendance
