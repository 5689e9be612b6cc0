-- ===== src/Lib.antt =====
-- A model of the Elastos Hive native SDK, a C library that stores files and values in IPFS and in
-- OneDrive, and the theorems that show what its functions promise.
--
-- The program has four layers. The public functions (src/hive_key.c, src/hive_file.c) check their
-- arguments and call a backend through the table of functions in src/hive_client.h. A backend
-- (src/vendors) chooses a node and talks to it by the HTTP client (src/http/http_client.c), a
-- wrapper of libcurl. All of them report errors by the codes of src/ela_hive.h, whose texts
-- src/hive_error.c gives. A public function returns -1 and leaves the code as the thread's last error.
--
-- A connection to OneDrive has a token (src/oauth/oauth_token.c), which a login gives, which is renewed when
-- it expires, and which the owner keeps in a file.
--
-- The files:
--   Error      src/ela_hive.h, src/hive_error.c, src/http_status.c: how a code is made (Code), its
--              texts (Table, Strerror), its fields (Fields, Dispatch), the bytes written (Text) and
--              the registration of a text function (Register)
--   Api        src/hive_client.h (Connect), src/hive_key.c (Key) and src/hive_file.c (File for the
--              functions on buffers, Transfer for those on whole files). Api/Os is the record of the
--              system calls and of what each does to the descriptors and the memory in use
--   Http       src/http/http_client.c: the buffer for a response (Body), the client's settings and
--              the outside world of the backends (Client), functions that return early
--              (Step), what holds behind a step (Ensures, Keeps), and the client with the resources
--              that it holds (Handle), with their number (Handle/Balanced, Handle/Session)
--   Ipfs       src/vendors/ipfs/ipfs_rpc.c (Rpc) and src/vendors/ipfs/ipfs.c (Connect), with the
--              search for a node (Bootstrap), the node in use (Node, Node/Calls) and the size that a
--              get returns (Fill), and the check of the nodes that a connection is given (Options, Valid)
--   Client     src/mkdirs.c (Directories) with the paths that it makes (Above), and src/hive_client.c
--              (Object): a client, a new one (Create), and the connections that a table makes for it
--   Oauth      src/oauth/oauth_token.c: times (Time), the token with its storing and restoring (Token),
--              the exchange of a code or an old token for a new one (Exchange) and the login
--              (Authorize); the renewal (Outcome, Renewal), the wait for a code (Wait), the login's
--              effect (Login), the expiry (Expiry) and the stored token (Storage)
--   Onedrive   src/vendors/onedrive/onedrive.c: its requests (Request), whole files (Put, Get), the listing
--              in pages (Listing, Listing/Pages), the functions of the table (Connect), what they do to
--              the token (Signed, Signed/Calls, Signed/Files), and the file that keeps the token
--              (Keystore, Reload). A connection is made in Client, with what its token has
--              (Client/SignedIn) and what a file with a token makes of it (Client/Restored). The
--              values of a key:
--              an entry of the file (Entry), the four functions over a record of the backend's
--              operations on whole files (Values), the loop over the entries (Values/Walk), what a key
--              holds (Values/Kept), and the public functions over them (Values/Public)
--   Apps       apps/cmd/cmd.c: a line that is read and split (Line, with its words in Line/Words and
--              Line/Typed), the two tables of operations (Ops), the state (Shell), the commands
--              (Connecting, Files, Values, Help), their table and the loop (Commands, with
--              what they call in Fine and the loop's lines in Commands/Loop) and main (Program);
--              apps/cmd/config.c (Config) and apps/prober/prober.c (Prober)
--   Base       lists, tests, integers and bit masks over the native numbers
--   Tests      concrete inputs and worlds
--
-- How the code is read. An operation has the name of the C function. A pointer that may be NULL is an
-- Option, a string is the list of its bytes, and the state of everything outside the library is a type
-- parameter that each call threads through. A function that fills the caller's buffer returns the
-- bytes stored there. `int` and `unsigned` have 32 bits, `size_t` and `ssize_t` have 64; the
-- conversions are written out (Base/Int), and so is the wrap-around of `size_t` in the buffer's growth.
-- Code outside the repository is a parameter: libcurl, cJSON, libconfig, the system calls, strerror_r,
-- curl_easy_strerror, inet_pton and strtol.
--
-- Accesses that C leaves undefined. Where a function reads or stores through a NULL pointer, or prints
-- a text behind the end of an array for a URL or a path, the model ends it there with a result that
-- the world chooses, and the library's own state (the token, the node in use) stays; a call of an
-- operation that is NULL gives a result that the world chooses (Api/Os). This is a choice of the
-- model, not what C promises. Hypotheses keep such runs out: that answers with status 200 are not
-- empty, that a refresh token or an operation is there, that paths fit. A statement without such a
-- hypothesis has these ends among its runs. A body that is moved with a NULL length (Http/Body,
-- Http/Handle), the command line's own calls through NULL (Apps) and an overrun of its arrays are
-- outcomes of their own.
--
-- The store behind the values of a key is a record of four functions on whole files. Values/Kept
-- states the conditions on it, for states in which it is ready, paths that fit and a bound on the
-- size. Tests/Cloud has a store that meets them: the functions of vendors/onedrive/onedrive.c over a
-- server that keeps a file, with a valid token, for paths of at most 900 bytes and files that are put
-- by one request. A file transfer (Api/Transfer) is followed over a world of two parts, what its own
-- system calls hold and the state of the connection.
--
-- Fuel. The loop that doubles the buffer has 66 rounds of fuel, which are enough as the size doubles
-- in each and a size_t has 64 bits. The search for a node has one round for each node, since its index
-- comes round to where it began. The loop over the entries of a key has one round for each byte of the
-- file, of which each entry takes at least four. The listing of all files takes its rounds as an
-- argument, since the server may link pages without end; so may the wait for a login, over the events
-- that the local server reports, and the loop of the command line, which takes a round for each line.
-- A result `none` is a loop that has not ended.
--
-- Not modelled: hive_log_init, which hands its arguments to the logger, and the trace of the HTTP
-- client, which logs; logging has no effect on the state. src/sandbird is a copy of another project. Of the applications the options that getopt reads, the signals, the
-- prompt and the start of a browser are left out, and the prober's main. A character or a word behind
-- the end of the command line's arrays, and a call through NULL in its table, end the run by `none`.
pub mod Base
pub mod Error
pub mod Api
pub mod Http
pub mod Ipfs
pub mod Onedrive
pub mod Client
pub mod Oauth
pub mod Apps
pub mod Tests
