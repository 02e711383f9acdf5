-- ===== src/Lib.antt =====
-- MindConnect Library (MCL), the C library through which agents reach MindSphere over TLS: a
-- verification library for its core and connectivity components.
--
-- The program. mcl_core has the helpers (strings, lists, Base64), the HTTP requests and responses,
-- and the onboarding of an agent; mcl_connectivity collects items (timeseries, events, files, custom
-- data) in a store and uploads them as multipart messages; mcl_data_lake and mcl_deployment add
-- uploads to signed URLs and deployment workflows. The parts call each other as functions that
-- return a code of `E_MCL_CORE_RETURN_CODE` and hand values back through pointers.
--
-- Conventions. `MCL_OK` is `ok` with the values handed back, any other code is `err` (Base/Code).
-- A string is the list of its characters before the terminator, `none` where it may be `MCL_NULL`.
-- A pointer through which a value is handed back is taken not to be `MCL_NULL`. The allocator, the
-- random bytes and other code outside answer through arguments, or, where a function makes many such calls,
-- as actions on a state that comes back also after a failure (Base/Action). Numbers are
-- natural numbers, and where the C type is narrower the wrap-around is written out (`u8`, `u32` in
-- Base/Bits, `size_sub` in Exchange/Store).
--
-- The files, with the code that they are about:
--   Base, Base/*         shared names, tests on numbers, lists, bits, codes, texts of literals;
--   StringUtil           mcl_core/src/string_util.c: lengths, comparison, both searches, reset,
--                        concatenation, the formatted print. Proofs in StringUtil/Find (searches),
--                        Prefix (what is found) and Copy (comparison, lengths, print);
--   Base64               mcl_core/src/base64.c, with the tables in Base64/Tables. Groups and Codec
--                        have the encoder, Quantum and Padding the decoder, RoundTrip both;
--   LinkedList           mcl_core/src/list.c on an explicit memory (LinkedList/Memory), where a
--                        dereference of `MCL_NULL` or of freed memory is a fault; where a struct
--                        `mcl_list_t` is freed, it is in a memory of its own. Chain and
--                        Invariant say what a list in memory is; Add, Relink, Remove and Walk are
--                        about the operations;
--   Multipart            mcl_connectivity/src/multipart.c. States has the states and their sizes,
--                        Copy the copies into the buffer, Tuple the loop and the functions of the
--                        header file. Message is the message of RFC 2046; Step, Lines, Round and
--                        Compose show what the loop writes, Payload is about the payload callback, Size
--                        about the reckoned sizes, the boundaries and the closing line;
--   Http                 mcl_core/src/http_request.c (Request) and http_response.c (Response);
--   Json                 mcl_core/src/json_util.c on cJSON: Library (what is used of cJSON, and documents),
--                        Read, Build, and Checked with the null checks of mcl_json_util.h;
--   Security             mcl_core/src: hmac.c (Hmac, against RFC 2104 in Reference), random.c (Random, the
--                        form of a GUID in Guid), security_handler.c (Handler), jwt.c (Jwt, as its
--                        receiver reads it in Token). Crypto is security.h, Samples a platform for tests;
--   TimeUtil             the check of timestamps in mcl_core/src/time_util.c, with strtol in Digits and
--                        the fields in Range;
--   Core                 mcl_core/src/core.c, with the core processor as an argument; Core/Section
--                        follows the critical section;
--   CoreProcessor        mcl_core/src/core_processor.c. Environment has its state and surroundings, Request
--                        and Payload what is sent, Response and Register the registration, Update the
--                        update of credentials, AccessToken the tokens, Initialize the start.
--                        Keeps is about steps that leave a part of the state alone; the modules under
--                        the others have the proofs;
--   Exchange             the exchange of a store in mcl_connectivity/src/connectivity_processor.c:
--                        Add is about mcl_connectivity/src/store.c,
--                        Store has the walks over the items, Loop the loop over the requests;
--                        Select, Body, Scan and Ends are about them, Waiting and Complete about a store
--                        whose requests are all accepted, and TextItems fills in the bytes of an item
--                        from Multipart;
--   Connectivity         the rest of mcl_connectivity/src/connectivity_processor.c: Correlation and
--                        Request have what is sent in an exchange and what becomes of the response,
--                        Body the exchange of a single item or a store, CustomData the payload callback
--                        of custom data, Mapping the mappings and the data source configuration. Configuration
--                        is connectivity_configuration.c, Facade connectivity.c, and Processor has
--                        mapping.c.
-- The tests of a part, and its theorems at concrete inputs, are in its module Tests.
--
-- How the parts interact. The interface between Exchange and Multipart is the record `Composer`
-- with the law `Exact`: a size for each item, and that many bytes wherever they fit; TextItems
-- fills both from multipart.c for items whose size json.c reckons right. The interface between
-- Exchange and the requests is the record `Client`, which Connectivity/Request fills
-- (`exchange_client`). Core and CoreProcessor meet in the record `Processor`, which
-- CoreProcessor/Initialize fills. CoreProcessor sees the HTTP client and the callbacks of the program
-- as fields of `Environment`, the libraries as `Platform` (cJSON as `CJson`, OpenSSL or mbed TLS as
-- `Crypto`, the allocator as `Memory`), each on a state `World` of its own, of which nothing is assumed
-- but what a theorem says. Jwt builds on Base64, Json and Hmac, and CoreProcessor on Jwt and Http. Http reads and writes header lines with StringUtil. Http and
-- Exchange see a list as its items in order; LinkedList has the operations on nodes.
--
-- Loops, bounds and fuel. The state loop of Multipart runs on 20 steps, one for each of its 19
-- states and one for the end; a payload callback on one step more than the room; the exchange of
-- a store on one step more than it has items; the walks of LinkedList on the number of nodes. The
-- theorems show that these are enough. Buffers and strings have lengths that a `mcl_size_t` can
-- hold, as objects in memory do.
--
-- Not modelled: the setters of the core's configuration and of the single items, their checks, the
-- payload callback of files, the printing and parsing of items as JSON, and
-- mcl_data_lake and mcl_deployment, which are left for later; the functions that only free
-- memory; the copy of cJSON, the crypto and HTTP client libraries and the input and output of files,
-- which are not code of this library or have nothing to prove without it; the conversion of a time to
-- text, which gmtime and strftime do; logging, which returns nothing. Where core_processor.c and jwt.c
-- hand a `MCL_NULL` to strlen, the model reads an empty text; the program must not come there.
pub mod Base
pub mod StringUtil
pub mod TimeUtil
pub mod Base64
pub mod LinkedList
pub mod Multipart
pub mod Http
pub mod Json
pub mod Security
pub mod Core
pub mod CoreProcessor
pub mod Exchange
pub mod Connectivity
