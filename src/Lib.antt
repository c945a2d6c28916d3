-- ===== src/Lib.antt =====
-- Verification of thingino-onvif, an ONVIF server for cameras: the CGI program onvif_simple_server,
-- which handles one SOAP request per process, and the notify server onvif_notify_server, which
-- watches input files and serves event subscriptions. Both share one memory of 32 subscription slots
-- and 8 event records under a named semaphore.
--
-- Which file models what (paths from the repository's root):
--   Base            tests, lists, integers and 32-bit masks that the other files share
--   Text            helpers of src/utils.c: topic expressions (Text/Topic), get_from_query_string
--                   (Text/Query), interval2sec (Text/Interval), html_escape (Text/Html);
--                   Text/Decimal and Text/Tokens are the C library's printf and scanf of integers,
--                   strtok and strsep
--   Events/State    shm_t and its parts of src/utils.h, the configuration that the events code reads
--   Events/Slots    the loops of src/events_service.c over the table of subscriptions
--   Events/Requests create_pull_point_subscription, subscribe, renew, unsubscribe and
--                   set_synchronization_point, which are events_... in src/events_service.c
--   Events/Pull     events_pull_messages of src/events_service.c in its four locked parts
--   Events/Properties get_service_capabilities and get_event_properties of src/events_service.c, with
--                   build_event_sources and build_event_source_descriptions of src/utils.c
--   Events/Notify   src/onvif_notify_server.c: handle_inotify_events, the polling loop, sync_events,
--                   clean_expired_subscriptions, sync_events_thread and parse_reference_url (Consumer)
--   Events/Steps    the locked parts of all processes as the steps of one system
--   Events/Semaphore sem_memory_open, _close, _wait and _post of src/utils.c
--   Ptz             the checks that the handlers of src/ptz_service.c share; Ptz/Tours is the table of
--                   preset tours with its handlers (Store: its file), Ptz/Presets the list of presets
--                   with the handlers that set, remove and reach one, and Ptz/Moves the handlers
--                   AbsoluteMove, RelativeMove, ContinuousMove and Stop
--   Output          cat of src/utils.c with the trimming it uses (Text/Lines), the copy of the output
--                   for the log, and a reply with its Content-Length
--   Dispatch        the table and dispatch_onvif_method of src/onvif_dispatch.c
--   Auth            the authentication decision in main of src/onvif_simple_server.c
--   Xml             the search for an element of the request in src/mxml_wrapper.c: Xml/Search with
--                   mxml's own walk through the document, Xml/Pointer with the caller's pointer
--   Imaging         src/imaging_service.c: the records of the configuration (Config) and their lookup,
--                   the reports through the bounded builder (Builder, Reports), Move and Stop (Focus),
--                   the presets (Presets) and SetImagingSettings (Settings); Imaging/Streamer is
--                   src/prudynt_bridge.c
--
-- State and effects. A handler takes the shared memory and gives the new one with a reply, which is a
-- template with its parameters, or a fault with the handler's negative return code; a failed check
-- stops it. Where a handler releases the semaphore and takes it again, an argument stands for what
-- the other processes do meanwhile. Handlers assume that the semaphore excludes; Events/Semaphore
-- models the semaphore itself. Text is a list of bytes without the final zero. Numbers are natural
-- numbers and integers; `int` results that may overflow are wrapped to 32 bits, `time_t` is unbounded,
-- and `long` has 64 bits in PullMessages.
--
-- The PTZ handlers take the table of tours that was loaded and give the one that is saved. What a
-- command prints, and the command that is run, are values; a handler that reads a null pointer or
-- overruns an array answers `undefined`. An imaging handler takes the state of the camera, which is
-- the configuration it may change with the calls it made, and gives its outcome with the new state.
--
-- Parameters. Floating point numbers with their operations (Ptz/Moves, Imaging), the ISO date reader,
-- the reduction to the platform's `long` in the debounce, the clock, the existence of files, the
-- base64 and SHA-1 functions, mxml's own searches in Xml/Pointer, what the streamer's state file
-- holds, and, for the handlers, the elements of the XML request are arguments.
--
-- Bounds and fuel. Printing a number uses its value plus one as fuel, which is more than its digits.
-- Reading the file of the tours uses one more than its length, and each round leaves a shorter text;
-- that this is enough for a saved file is part of its round trip. All other loops are structural:
-- over 32 slots, over 8 event records, over the table of methods, or over the bytes of a text. The
-- wait of PullMessages runs over a list of observations. The wait for the streamer has as fuel its
-- limit in steps of 100 milliseconds plus two: the round after the last step ends the loop.
--
-- Not modelled: the coordinates of presets and the other reports of the PTZ service, which print
-- floating point numbers; logging, memory allocation failures, header fields but Content-Length, the
-- network side of send_notify, reading the configuration, parsing of the request into elements,
-- discovery, and the handlers of the device, media and DeviceIO services.
pub mod Auth
pub mod Base
pub mod Dispatch
pub mod Events
pub mod Imaging
pub mod Output
pub mod Ptz
pub mod Text
pub mod Xml
