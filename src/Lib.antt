-- ===== src/Lib.antt =====
-- Verification of the academic backend: the catalog of programs, courses and sections,
-- enrollment of students, grades, and access control (backend/, in Go on PostgreSQL).
--
-- How the parts interact. A Connect request passes the session interceptor and the authorization
-- interceptor (backend/internal/auth, backend/internal/authz) and reaches a handler, whose
-- service parses identifiers and takes the caller from the session; the service calls a
-- repository, which runs the SQL statements of its query.sql, in a transaction where several
-- must hold together. A student needs a paid enrollment (matricula) of the year under the
-- program's quota to take a seat in a section under its capacity; grades settle the outcome of
-- an inscription.
--
-- Files.
-- - Base: the names shared by all files, lists over the native numbers, the laws of searches,
-- counts and updates of tables (Base/Rows), and joins (Base/Joins). Base/Int has integers over
-- the native numbers.
-- - Base/Every: properties of every row of a table under updates. Platform/Texts: comparisons of
-- strings.
-- - Store: the tables of backend/migrations as records, and the state Db.
-- - Driver: statements, driver errors, transactions, and the state-and-error computations M in
-- which the methods are written. Driver/Laws inverts them.
-- - SectionEnrollment: backend/internal/sectionenrollment. Queries has the statements of
-- query.sql, Repository the methods EnrollSectionTx (cut into its numbered steps),
-- WithdrawSection, GetSectionEnrollment and SetSectionEnrollmentOutcomeTx of repository.go,
-- Errors the errors of errors.go. Repository/Steps and Repository/Effects invert the methods,
-- Repository/Rules lists the rules of an enrollment in the order in which EnrollSectionTx tests
-- them, and Repository/Refusals compares its answer with them; Repository/Progress runs the
-- methods with a driver that answers, Invariant, Admission and Lifecycle have the properties,
-- Sessions the same transaction run by many sessions at once, Service the single-row methods of
-- service.go, Enrollable the statement and the methods of ListEnrollableSections (Agreement and
-- Completeness compare it with EnrollSectionTx, Pages has its pages).
-- - Enrollment: backend/internal/enrollment in the same layout, with Service for service.go.
-- - Grades: backend/internal/grades. Rat is big.Rat, Final computeWeightedFinal, Weights
-- validateWeights and parseGradeValue, Numerics numericToRat and Pairing the other helpers of
-- RecordGradeTx; Queries has the statements, Repository RecordGradeTx (Gates, Effects and
-- Outcome invert it, Progress runs it with a driver that answers), Schemes the transactions of
-- evaluation schemes, Versions the grades table under any sequence of writes (History) and the
-- optimistic lock (Locking), Service the methods of service.go around them.
-- - Access: backend/internal/authz (Policy), and interceptor.go and authzinterceptor.go of
-- backend/internal/auth with the chain of backend/cmd/api/main.go (Interceptors).
-- - Auth: backend/internal/auth. Store is session/store.go on an interface of Redis commands,
-- Service the methods of service.go and repository.go, with bcrypt and the random identifiers as
-- parameters, Resets a reset token over sequences of requests.
-- - Catalog: backend/internal/catalog. Tables has the shapes of statements (INSERT, UPDATE,
-- DELETE on a table with its unique key and foreign keys), Programs, Terms and Sections the
-- statements that write, Repository and Service the methods that write, Lists the pages of
-- programs, courses and sections (Scope says whom ListOwnSections shows what), and Reads the
-- other methods that read (Order and Courses are about their lists). Change is what one call of
-- the service does to the tables, and History runs any sequence of calls: its Changes, Offers,
-- Seats and Calls show that each method makes such a change, Links and Validity are the
-- invariants, with the statements in Links. Offering and Resizing put the catalog together with
-- enrollment into sections, and Quotas with enrollment into programs.
-- - Reports: backend/internal/reports. Queries and SummaryQueries have the statements, Builders
-- the acta of a section from its rows (Grouping says what its loop computes), Service
-- GetSectionGradeReport with the cache (Cache says what storing a report leaves, Scope who is
-- answered, and with what), and Summaries the three reports for admins (Occupancy compares one
-- with enrollment into sections).
-- - Platform/Pgconv: backend/internal/platform/pgconv, on texts that are lists of character
-- codes, with the printer of big.Int that it calls; exponents are any integers, where Go has an
-- int32 that it negates.
-- - Platform/Pagination: backend/internal/platform/pagination, with the page of a keyset list
-- query (below, page_after, after ListSectionEnrollments) and the client that follows its tokens
-- (walk). Platform/Search: EscapeLikePattern and SearchPattern, on the bytes of a text.
--
-- Modelling choices. A UUID is a number, uuidv7() a counter of the state, a timestamp a number,
-- and now() a field of the state. Each driver call of a method has a number, and a function says
-- which calls fail and how (a lost connection, a lock that was not granted, a key that another
-- session has just taken); theorems hold for every such function unless they say that the driver
-- answers, and no fuel is needed, except that a number's decimal digits are spelled in as many
-- rounds as the number is large, which is never less than its digits. A transaction whose body
-- or commit fails leaves the tables as they were before it. The methods of a repository are run
-- one after the other, except in SectionEnrollment/Sessions, where the steps of any number of
-- transactions interleave, row locks exclude each other and a count sees committed rows.
-- Capacities and years are natural numbers: the services refuse others. Status columns are data
-- types, by their CHECK constraints. Logging and measured waiting times are left out; the domain
-- counters are kept, and outlive a rollback. What PostgreSQL stores for a value of a NUMERIC
-- column, or its refusal, is a parameter too; grade versions are natural numbers. uuid.Parse,
-- the decimal readers, the role loader, the cookie reader, bcrypt, random identifiers and the
-- commands of Redis are parameters; so is the session store for the interceptors. A key of Redis
-- may expire before any command. The foreign key of section_teachers finds a row of
-- teacher_profiles. The collation of names, protojson, and how a ratio is printed are parameters
-- of the reports, which read profiles that stand beside the tables; a cache entry may be missing
-- at any time. What ILIKE matches, strings.TrimSpace and the catalog's ParseDate are parameters.
-- Rows that tie in an ORDER BY of the catalog keep the order of their table.
--
-- Not modelled: most list queries of section enrollments, enrollments and grades, the limiter,
-- the handlers, GetSession of auth's service, iam, profiles and audit logs. Generated code,
-- wiring and the client are left out.
pub mod Base
pub mod Platform
pub mod Store
pub mod Driver
pub mod Enrollment
pub mod SectionEnrollment
pub mod Grades
pub mod Access
pub mod Auth
pub mod Catalog
pub mod Reports
