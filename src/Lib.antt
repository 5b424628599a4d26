-- ===== src/Lib.antt =====
-- libpapago: an HTTP and WebSocket server library in C with clients for both (papago.c,
-- papago_client.c, papago_wsc.c and their headers).
--
-- This library models the parts of papago.c that decide what a server does: which route serves a
-- path and with which parameters, in which order middleware runs, what is answered when no route
-- is found, what a form body holds, and how messages are queued and requests counted.
--
-- The parts. A program registers routes and middleware (Server). For each request mhd_handler
-- collects the body, in parts of a form or as bytes (Upload, Multipart), checks the certificate of
-- the client and turns the response into a reply (Exchange); in between it runs the middleware,
-- searches the routes with the matcher of paths, stores the captures as parameters and calls the
-- handler, or answers 404 or 405 (Dispatch). A handler may serve files (Static). The handler reads
-- the request (Request) and fills in the response (Response), whose headers, like the request's,
-- are key/value arrays. A websocket handshake ends in a connection (WsServer), whose outgoing
-- messages wait in a queue for the service thread (WsQueue, WsConn). A handler or middleware can
-- ask whether a client is over its limit (RateLimit), or render a page (Template, MemStream). A
-- server is made, started and destroyed in Lifecycle.
--
-- The files, with the functions of papago.c that they model, and for Client and Wsc those of
-- papago_client.c and papago_wsc.c:
--   Prelude    the shared names, C strings as lists of bytes, and what <string.h> does with them
--   Alloc      malloc, whose outcomes are an argument: each list of outcomes is a run
--   Kv         papago_kv_t, dup_n, add_kv_n, add_kv, find_kv
--   Config     papago_config_t (papago.h), papago_config_new, valid_config
--   Method     papago_method_t (papago.h), parse_method, papago_req_method, set_allow_header
--   Route      param_span_t, next_segment, count_route_params, match_route, route_matches,
--              collapse_slashes, commit_params
--   Url        papago_url_encode, papago_url_decode
--   Form       form_body_parser
--   Mime       papago_mime_type
--   Request    struct papago_request and its searches, header_iterator, query_string_parser
--   Response   struct papago_response, papago_res_header, papago_res_send, papago_res_json,
--              papago_res_html, set_file_headers, papago_res_sendfile_mime
--   Server     papago_route_t, papago_middleware_t (papago.h), papago_route,
--              papago_middleware_add, papago_middleware_path_add
--   Dispatch   mhd_handler from the first middleware to the label send_response
--   Upload     mhd_handler while the body arrives and when it is complete
--   Exchange   mhd_handler from the client's certificate to the reply for libmicrohttpd
--   Compression
--              compress_gzip
--   Growth     the doubling of a buffer in multipart_iterator and in write_cb of papago_client.c
--   Multipart  multipart_field_t, struct papago_file_upload, multipart_proc_current_field,
--              multipart_iterator (Iterate), papago_req_files, papago_req_file (Requested),
--              free_file_uploads, request_completed (Completed)
--   Static     papago_serve_static_handler, papago_embedded_file_t (papago.h),
--              papago_serve_embedded_handler
--   WsQueue    papago_ws_msg_t, ws_queue_push, ws_queue_pop, ws_queue_has_more
--   WsConn     struct papago_ws_connection, papago_ws_conn_acquire, ws_conn_release, ws_msg_create,
--              papago_ws_send, papago_ws_send_binary, ws_queue_drain_and_free, and lws_callback when
--              the socket can be written
--   WsServer   papago_ws_endpoint_t, papago_ws_endpoint, papago_ws_broadcast, and lws_callback when a
--              connection is established or closed
--   MemStream  memstream_t, ms_create, ms_read, ms_write, ms_seek
--   Template   _fmemopen, papago_render_file, papago_render_template, papago_res_render
--   Lifecycle  load_file, papago_new, papago_start, papago_stop, papago_destroy,
--              papago_enable_rate_limit
--   RateLimit  papago_rate_limit_entry_t, papago_check_rate_limit
--   Metrics    papago_metrics_t, update_metrics, papago_metrics_handler (Text)
--   Cors       papago_cors_config_t (papago.h), papago_cors_default_config, match_allowed_origin,
--              papago_cors_mw
--   Client     papago_client.c: the headers, header_cb, write_cb, papago_http_send (Send), and the
--              count of users of libcurl (Refs)
--   Wsc        papago_wsc.c: papago_wsc_config_t (papago_wsc.h), papago_wsc_connect, wsc_enqueue,
--              wsc_flush_one, wsc_lws_callback, papago_wsc_stop; papago_wsc_run and
--              papago_wsc_destroy (Service)
-- The theorems stand in the modules below each of these, and runs on concrete values in Tests.
--
-- The conventions. A string is the list of its bytes before the NUL; a pointer that can be NULL is
-- an option; a pointer into a string is the rest of the string. An array with its count is a list.
-- A function that changes an object returns the new one. Memory is explicit only in the queues,
-- where messages are linked. A call of papago_ws_send is one step: the queue is changed under
-- send_mutex, and the messages of other threads come before or after it. `size_t` and `uint32_t`
-- wrap around where the code adds and subtracts. Handlers and middleware are functions on a state
-- of the response, the user's own data, of any type, and the outcomes of allocations to come.
--
-- Fuel. The loops over the segments of a pattern have the length of the pattern plus one as fuel,
-- and each round uses up at least one byte of it; the theorems on the matcher hold for every
-- pattern and so show that it is enough. The loop that prints a number has the number plus one.
-- The doubling of a buffer has what is needed plus one, since each round adds at least one byte.
-- The release of a queue has the bound of the queue plus one, and that of the client's queue,
-- which has no bound, one more than the messages that were accepted.
--
-- Not modelled: the calls of libmicrohttpd, libwebsockets, GnuTLS, zlib, the template library and
-- pthreads, which are not part of the repository, and the functions that only pass values to them;
-- the functions that only free what they are given.
pub mod Prelude
pub mod Alloc
pub mod Kv
pub mod Url
pub mod Form
pub mod Route
pub mod Method
pub mod Mime
pub mod Response
pub mod Config
pub mod Request
pub mod Server
pub mod Dispatch
pub mod WsQueue
pub mod WsConn
pub mod MemStream
pub mod Template
pub mod Lifecycle
pub mod WsServer
pub mod Client
pub mod Wsc
pub mod RateLimit
pub mod Metrics
pub mod Cors
pub mod Static
pub mod Growth
pub mod Multipart
pub mod Upload
pub mod Exchange
pub mod Compression
