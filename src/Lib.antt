-- ===== src/Lib.antt =====
-- The core of libevent 1.4 as it stands in this repository, under
-- LibeventApp/app/src/main/cpp: the event loop with its heap of timeouts, the byte buffer, and,
-- built on the buffer, the tagged messages and the text of HTTP messages.
--
-- Evbuffer models buffer.c and the types of event.h that it uses. A buffer is a record of the
-- fields of `struct evbuffer`: the block at `orig_buffer` is a list of bytes, the pointer `buffer`
-- a distance from its start, and the callback a number with a list of the calls made of it. An
-- operation takes the buffer and returns the new one. Its children hold the operations on lines
-- (Evbuffer.Lines: evbuffer_readline, evbuffer_readln, evbuffer_find) and on descriptors and
-- formatted text (Evbuffer.Io: evbuffer_read, evbuffer_write, evbuffer_add_vprintf); the others
-- prove, each about what its name says.
--
-- Tagging models the codecs of event_tagging.c for integers (encode_int) and tags
-- (evtag_encode_tag), on the bytes and on a buffer; Tagging.Messages the evtag_* calls that write
-- and read whole messages by means of these and of the buffer's operations. The static `_buf` is
-- passed in and out.
--
-- MinHeap models min_heap.h: an event is a number, the array a list with a fixed number of slots,
-- and the fields `ev_timeout` and `min_heap_idx` of the events are functions of the number.
--
-- Events models event.c on one base, with the heap of MinHeap in it: `Base` holds the fields of
-- `struct event_base`, and those of `struct event` as functions of the event's number; `ev_flags`
-- is a Boolean function for each flag. Events itself has the queues (event_queue_insert,
-- event_queue_remove) and gettime; Events.Calls the calls of a program (event_set, event_add,
-- event_del, event_active, event_pending and others); Events.Loop the timeouts, the running of
-- callbacks and event_base_loop; Events.Once event_base_once; Events.Free event_base_free. The
-- callbacks and the back end are fields of `Env`: what they call of the library is a list of `Op`,
-- which the model runs on the base at that point. Events.Valid has the invariant: the flags agree
-- with the queues and the heap, and the counters with both. Events.Delete has the view of an event
-- (inserted, active, due) by which the calls are specified; the other modules prove, each about
-- what its first line says.
--
-- Http models what http.c reads and writes as text. Http itself has the C library's numbers and
-- strsep; Http.FirstLine the request line (evhttp_make_header_request, evhttp_parse_request_line);
-- Http.Headers the list of headers with its operations, evhttp_parse_headers and the part of
-- evhttp_make_header that prints; Http.Chunks the sender and the reader of bodies in chunks
-- (evhttp_send_reply_chunk, evhttp_send_reply_end, evhttp_handle_chunked_read); Http.Uri the codec
-- of URIs and evhttp_parse_query. All read and write through the operations of Evbuffer, so a
-- round trip runs from the sender's buffer calls to the reader's. A request is a record of the
-- fields that a module uses. Http.Write is the scheduling of a connection's output
-- (evhttp_write_buffer, evhttp_add_event) by the calls of Events on its event. The formats that
-- http.c prints, and strtoll, are written out.
--
-- Prelude holds what these share: Boolean tests, lists with their lengths in native numbers,
-- how often a number stands in a list, the outcome of a call (done, aborted by an assert, undefined
-- in C, stuck without fuel), blocks of memory, the search for a byte, and facts on bits.
--
-- Code that is not in the repository is a parameter: realloc and malloc answer a block or NULL for
-- each size (and leave indeterminate bytes in what is new), FIONREAD, read(2), write(2) and
-- vsnprintf answer what their documentation allows, the two clocks give a time for each reading,
-- and the monotonic one may fail. `size_t` has 64 bits, `int` and `unsigned` 32; vsnprintf fails
-- where the length of its output is no int. Where an int index or length overflows, or a shift
-- reaches the width of its operand, the outcome is `undefined`: `sz + 1` in evbuffer_add_vprintf, `i`
-- and `j` in evhttp_decode_uri_internal, and the shift of a tag's sixth byte in decode_tag_internal;
-- the theorems on these calls exclude such inputs.
--
-- An event's `ev_pncalls` points to a variable of event_process_active, and may still be set when that
-- call has returned. A write through it is then no write to the base: `stray` of `Base` counts it,
-- and what it does to memory is not modelled. For a signal event the back end may first add an event
-- of its own, as evsignal_add does; Events.Calls models this (add_signal), and the theorems on
-- event_add and the loop are about events without the signal bit.
--
-- Loops run on fuel, and a loop without fuel is `stuck`, which no theorem on a call that returns
-- allows. The fuel is: 64 for the doubling of a size (a `size_t` doubles at most 64 times), one
-- more than the bytes held for searches, 2 rounds of printing (the second has room), 9 for the
-- nibbles and 5 for the groups of a 32-bit number, and for the heap one more than the hole
-- (upwards) or than the events (downwards); one more than the events of the heap for the timeouts
-- that are over, and one more than `ev_ncalls` for the calls of a callback; one more than the bytes
-- for headers, a header's value and a query, and two more than twice the bytes for chunks, as a
-- round takes a byte or completes a chunk whose size was read before. A number that is printed has
-- at most 8 hexadecimal or 20 decimal digits, and 3 in a version. The loops over active events and
-- of event_base_loop may go on for ever, as callbacks add events; they take their fuel as an
-- argument.
--
-- Not modelled: evbuffer_free and min_heap_dtor, which only free; what a callback does to a
-- buffer; the Windows branches; evtag_encode_tag without a buffer; of event.c event_reinit and
-- the handling of signals but for evsignal_add's event_add, the time that event_pending reports, and the calls on current_base,
-- which only pass it on; of http.c the status line and the headers of a response, the length of a
-- body, and the connections and servers, which are I/O; and the other parts of the program
-- (buffered events, DNS, RPC, the kernel back ends, libio).
pub mod Prelude
pub mod Evbuffer
pub mod Tagging
pub mod MinHeap
pub mod Events
pub mod Http
