-- ===== src/Lib.antt =====
-- A model of fcgijwtauth, the FastCGI program that tells a web server whether the JSON web token of a
-- request may pass, and of the parts it is made of. A request arrives with a path and a cookie
-- header. The path is parsed into segments; the header is parsed in place into cookies; the "auth"
-- cookie is a token, which is verified with the key that it names, out of a store of keys for each
-- issuer, which is filled from a file or a URL; the user that the token names decides the answer.
-- The login passes a page to return to through the identity provider, signed with a hash; the code
-- that comes back is exchanged for a token, which becomes the cookie. The handlers write pages, two of
-- which are rendered from templates, and read forms, which a decoder takes out of the body.
--
-- - Path: src/HTTPUtils.hpp and src/HTTPUtils.cpp, percent decoding (Path/Percent), `parse_path` and
--   `ParsedPath` (Path/Parse), `consume`, `consume_read` and `consume_read_ex` (Path/Consume).
-- - Number: `appauth_parse_first_number` of src/appauth.cpp, with `strtol` and `from_chars`.
-- - Cookies: the cookie functions of src/HTTPUtils.cpp and the two that take the token out of them in
--   src/jwtinterface.cpp.
-- - Sha256: src/minisha256.c.
-- - State: src/openidconnect.c, and `truncate_at_second_last_dot` of src/appauth.cpp.
-- - Jwks: `JWKSStore` and `JWKSStoreManager` of src/JWKSVerifierStore.cpp and
--   src/JWKSVerifierStore.hpp.
-- - UserContext: `JWTUserContext` and `jwtinterface_getusercontext` of src/jwtinterface.cpp.
-- - Auth: the verification in src/application.cpp, and `process_verification_request` of
--   src/appauth.cpp (Auth/Request), which does to a request what Fcgi lists.
-- - Template: `TemplateEngine` of src/simpletemplate.hpp.
-- - HttpClient: `http_post` of src/httpclient.c and its callback.
-- - Form: the form of src/formdecoder.c, the callback for the events of the MIME decoder (Form/Decode),
--   what the disposal of a form closes and unlinks (Form/Disposal),
--   the attributes of a header in src/contentdisposition.c with `qsp_append_to_dynstring` of
--   src/quotedstringparser.c (Form/Header), and src/formdecoder_fastcgi.c (Form/Upload).
-- - Login: the handlers of src/appauth.cpp, `process_login_page_post` (Login/Post),
--   `process_code_response` (Login/Code, its pages in Login/Decision), `process_login_page_get`,
--   `process_direct_token_auth_request` and `process_debug_token_auth_request` (Login/Get),
--   `process_logout_request` (Login/Logout); `get_tokens_from_microsoft` (Login/Tokens); the templates
--   of src/application.cpp (Login/Pages); `fcgx_prepare_request_context` (Login/Context) and
--   `appauth_process_request` (Login/Dispatch); `main` of appsrc/auth.cpp (Login/Program). Login/Steady
--   is about the state from one request to the next.
-- - FileManager: the pages of src/appfileman.cpp; appsrc/filemannospawn.cpp, its command line and what
--   it does up to its loop (FileManager/Setup), with `application_database_init` of
--   src/application.cpp, and the loop (FileManager/Launcher); the system is a parameter
--   (FileManager/System).
-- - Quoted: `qsp_callbacker`, `qsp_inplace` and `qsp_inplace_commandline` of src/quotedstringparser.c.
-- - ErrorInfo: src/errorinfo.c.
-- - Web: the query decoder, the encoders, the clocks and libcurl, as parameters.
-- - Outcome: how a C++ call ends. Library: picojson, jwt-cpp, the files, libcurl and the clock, as
--   parameters. Base: shared names, tests and lemmas. Tests: the theorems at concrete inputs.
--
-- Strings are lists of bytes, pointers into them are indices. Functions of the source that return
-- through references or pointers return a tuple. Objects that are shared, as the stores of the
-- manager, are passed in and handed back. Machine words keep their wrap-around.
--
-- Bounds and fuel: `parse_from` takes as fuel one more than the length of the text, and each round
-- goes on behind a slash; `parse_rounds` takes the number of segments that the first pass of the
-- source counts, as the source does; `past_slashes` and `second_last_dot` count down the numbers that
-- the loops of the source count; `render_from` takes the length of the template, and `find_attribute`
-- one more than the length of the header, each round of which goes on behind what it has read;
-- `pieces_from` and `read_from` take a byte at least in each round but the last; `callback_rounds`,
-- `commandline_rounds` and `inplace_rounds` take as many rounds as the text has bytes, and one more;
-- `serve_loop` follows the server for some rounds, however many.
--
-- Not modelled: the database but for how the file manager creates and reads it, since its wrapper is not
-- in the repository; `application_check_authorisation`, which nothing calls; the clocks, the tools and
-- the tests among the other programs; and what the code logs. Allocations are taken to succeed, but for
-- those that create an error in ErrorInfo. A file that is opened but gives no size to read is not
-- considered; nor is an algorithm of jwt-cpp that neither is made nor throws. A second temporary file of
-- one part takes the place of the first, whose descriptor the source loses. While the program serves,
-- the identity provider and the steady clock change, the system clock, the files and the downloads do
-- not.
pub mod Base
pub mod Outcome
pub mod Library
pub mod Fcgi
pub mod Path
pub mod Number
pub mod Cookies
pub mod Sha256
pub mod State
pub mod Jwks
pub mod UserContext
pub mod Auth
pub mod Template
pub mod Web
pub mod HttpClient
pub mod Form
pub mod Login
pub mod FileManager
pub mod Quoted
pub mod ErrorInfo
pub mod Tests
