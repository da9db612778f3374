-- ===== src/Lib.antt =====
-- A model of the banking server: a C program that keeps users, accounts, transactions, loans and
-- feedback in five binary files, and serves requests of customers, employees, managers and an
-- administrator over sockets, one thread for each client; the terminal client that sends them; and two
-- programs beside the server that fill the files and print them.
--
-- Files and code:
--   Model, Store, Utils      include/server.h and src/utils.c: the records, the files, their locked
--                            updates, identifiers, uniqueness of credentials, passwords and login.
--                            Store/Rows and Store/Laws hold the lemmas, Utils/Accounts those for the
--                            accounts file.
--   Locks                    the locked updates of src/utils.c as the steps of several threads.
--                            Locks/Serial is about threads that are processes of their own,
--                            Locks/Shared about threads of one process.
--   Customer, Customer/Views src/customer_module.c. Customer/Money, Customer/Transfer,
--                            Customer/Rollback and Customer/Totals are about deposits, withdrawals
--                            and transfers, Customer/Solvency about balances below zero, and
--                            Customer/Screens about what the loan and history views show.
--   Listing                  the loops that fill the response with rows, which all modules share.
--   Manager                  src/manager_module.c. Manager/Reviews is about account status and reviews
--                            of feedback.
--   Employee                 src/employee_module.c
--   Admin                    src/admin_module.c
--   Loans                    a loan through customer, manager and employee code: its decision, its
--                            payment, and its life as a whole.
--   Users                    the users file under employee and administrator code, and logins.
--   Sessions                 the table `active_sessions` of src/server.c and its critical sections.
--   Server, Server/Routes    `client_thread_main` of src/server.c: the request router.
--                            Server/Refinement relates a request to the session histories.
--   Client                   src/client.c. Client/Input, Client/Validators and Client/Terminal are the
--                            prompts, Client/Customer, Client/Employee, Client/Manager and
--                            Client/Admin the choices of the menus, Client/Menus their loops, and
--                            Client/Main the login and the outer loop. Client/Shrinks, Menus/Rounds
--                            and Main/Rounds are about the loops and their fuel, Client/Payload,
--                            Client/Served and Client/Routed about requests as the server reads them,
--                            Client/Online about a client connected to the server, and
--                            Client/Admin/Staff about new staff.
--   Bootstrap                src/bootstrap.c: Bootstrap/Adders is about one call that adds a user,
--                            Bootstrap/Fresh about a run over empty files, Bootstrap/Runs about
--                            a second run.
--   Inspector                src/db_inspector.c
--   Base                     library names, Boolean tests, lists, signed integers, C strings and decimal
--                            digits.
--   Tests                    examples on small files. Tests/Scanner and Tests/Keyboard keep the laws
--                            that are assumed of sscanf and scanf.
--
-- State. A `World` is the five files and the response buffer. A file (`Table`) is its records, or none
-- where it does not exist, and whether a `write` to it is stored; a record is read and written whole.
-- A C function that changes files or the response is a function `World F → A × World F`, written in do
-- blocks, and its return value 0 or 1 is a Bool. `atomic_update` is the `atomic_update_*` functions: a
-- search for the offset under a lock, then read, modifier and write under a second one. In
-- `transfer_among` other requests act between the debit and the credit of a transfer; `transfer_funds`
-- is the run in which they do nothing. The server adds the session table and, for each connection, its
-- `current_userId`.
--
-- The client's standard input is the text that is still to be read; a prompt gives its answer and what
-- is left. The other end of the socket is a `Link`: a state that a written request and a read response
-- change. `server_link` is the server as such a state, with one connection on which nothing is lost.
--
-- Parameters. `F` is the type `double`, with its constant 0, sum, difference and comparisons (`Double`);
-- where a theorem needs that amounts do not round or are finite, it says so (`IsExact`, `IsOrdered`).
-- `Printf` is the text of one row of a listing; `Libc` has `sscanf`, `crypt` and what unset local
-- variables hold, `Terminal` has the client's `scanf`, `strtod` and `atoi`. `IsScanf` is what `sscanf` is
-- documented to do with printed values, `IsScan` that `scanf` takes the characters of a number and puts
-- none back; `now` is the result of `time(NULL)`. A formatted message is kept as its format and
-- arguments; what the inspector prints has the text of %.2f as a parameter.
--
-- Numbers. Identifiers, counts and times are natural numbers. The next user identifier is cut to 32
-- bits, an age to 8 bits. Fields are cut to their size less one, and the response to 1023 bytes. The
-- server's loops run over the records of a file, so that they end. The client's loops run on fuel, one
-- more than the characters of the input, since every round takes at least one. At the end of the input a
-- prompt looks at what its buffer holds, the last line or else a parameter (`unset_text`, one for each
-- size of a buffer), and the menus and a prompt that does not accept that ask again for ever, which is
-- no result.
--
-- Not modelled. Sockets, threads, signals and file system set-up; what the client and the bootstrap
-- program print on the terminal, but for the table of credentials; records read half; words of a payload
-- that overflow the router's local buffers, or fill a field of a new customer to its last byte; and a
-- file that exists but does not open, or cannot be created, where the C functions return 0. Lock calls
-- leave no trace in a sequential run; in Locks the modifiers are functions of the record, and a search
-- of the file is one step, which never waits: fcntl refuses its lock for writing on a descriptor that is
-- open for reading.
pub mod Admin
pub mod Base
pub mod Bootstrap
pub mod Client
pub mod Customer
pub mod Employee
pub mod Inspector
pub mod Listing
pub mod Loans
pub mod Locks
pub mod Manager
pub mod Model
pub mod Server
pub mod Sessions
pub mod Store
pub mod Tests
pub mod Users
pub mod Utils
