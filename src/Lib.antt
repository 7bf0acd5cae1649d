-- ===== src/Lib.antt =====
-- GMediaRender: a UPnP media renderer (C, under src/). A model of the program's core and the
-- theorems about it.
--
-- The parts of the program and how they work together. A controller sends SOAP actions, which
-- libupnp hands to `handle_action_request` (src/upnp_device.c). It finds the action in the table
-- of the service (src/upnp_service.c) and calls its handler; those of the AVTransport service are
-- in src/upnp_transport.c, those of RenderingControl in src/upnp_control.c. A handler reads the
-- arguments, locks the service, changes the state variables, calls the output module
-- (src/output.c) and answers through src/upnp_device.c. The variables are in a container
-- (src/variable-container.c), which calls its listeners on a change. One of them is the
-- LastChange collector (same file): within a transaction it gathers the changes in an XML
-- document (src/xmldoc.c over libixml), and at the end of the outermost transaction it stores the
-- document in the variable LastChange, by the same change function, and sends it to the
-- subscribers as an event, escaped by src/xmlescape.c. The output reports back by a callback, and
-- a thread polls its position.
--
-- The files. Prelude and its children: shared names, Boolean tests, lists, bytes, bit sets,
-- signed integers, floats (Float: IEEE binary32, rounded to the nearest), and `Run`, code on a
-- state that may fault (a failed `assert`, a NULL that is followed).
--   XmlEscape             src/xmlescape.c: `xmlescape_real` in its two modes, `xmlescape`
--   XmlEscape/Laws        its buffer, its round trip, what its result holds
--   XmlDoc                src/xmldoc.c: the functions that build documents
--   VariableContainer     src/variable-container.c: `VariableContainer_new`, `_get`, ...
--   VariableContainer/Creation   what `VariableContainer_new` makes
--   LastChangeBuilder     src/variable-container.c: `UPnPLastChangeBuilder_*`
--   LastChangeCollector   src/variable-container.c: `VariableContainer_change`,
--                         `UPnPLastChangeCollector_*`; Ready, Listeners, Changes and Events prove
--                         what a change and the end of a transaction do
--   ActionEvent           src/upnp_device.c: `upnp_set_error`, `upnp_get_string`, ...
--   Device, Device/Requests   src/upnp_device.c: the search for a service, requests for a variable,
--                         subscriptions
--   Output                src/output.c: the calls that the services make
--   Arguments             src/upnp_service.h: the arguments of an action
--   Transport             src/upnp_transport.c: the state and the helpers of the handlers;
--                         Variables and Actions its tables, Time and its children its times, Handlers the handlers,
--                         Clock the thread, Request the dispatch of src/upnp_device.c, Created the
--                         service at its start
--   Abstract              the abstract state of a service, over its table of variables: the variables
--                         as a function, the transport state, the output, the event and the number
--                         of open transactions; Calls, Locks and Transactions tell what each call
--                         of a handler does to it, Ends what a run that has ended says
--   Transport/Table       the table of the transport
--   Transport/Contract    what each handler promises on that state
--   Transport/Promises    that the code keeps the contracts, from the proofs beside the code
--                         (Handlers/*, Actions/Answers, Request/Refinement, Clock)
--   Transport/Consistency, Transport/Invariant   an invariant of all sequences of steps
--   Control               src/upnp_control.c: the helpers of the handlers; Volume the levels and their
--                         decibels on floats, Variables and Actions its tables, Numbers `atoi`,
--                         Handlers the handlers, Created the start, Contract and Promises as above
--   Control/Volume/Levels, Control/Volume/Decibels, Control/Invariant   the range of the levels, the way
--                         back from the decibels, what holds after all sequences of commands
--   WebServer             src/webserver.c: the files in memory and the callbacks; Reading and Serving
--                         what is read from an open file, and from a registered one
--   ConnectionManager     src/upnp_connmgr.c: Variables and the tables, the handlers; Answers what
--                         they answer
--   ConnectionManager/MimeTypes   the list of MIME types and its filter; Filtering, Roots,
--                         FilterText and Registration what is in the list afterwards
--   Tests, Tests/*        the properties on concrete runs
--
-- What is a parameter. libixml (`Ixml`), libupnp (`Upnp`) and the output module (`OutputModule`)
-- are records that every definition takes; nothing is assumed about their functions. So are
-- doubles with `exp`, `log` and `atof` (`DoubleMath`); floats are computed. The local files of
-- the web server are a parameter (`LocalFiles`), and so are the lists of GLib (`Slist`), of which
-- the theorems on MIME types assume what the manual says (`IsSlist`).
--
-- Bounds and fuel. `VariableContainer_change` calls itself through the collector, for LastChange,
-- whose changes the collector ignores: the recursion is given two levels, and the theorems on
-- changes are proved for every larger number too (`change_fuel`). The rounding of a float halves
-- its quotient at most 530 times, which is enough below 2^554 (`scale-lt`). All else is
-- structural. A bit set of `not_eventable_variables` is a number; the code's `assert` keeps its
-- indices below 32.
--
-- Not modelled: memory (allocation does not fail, nothing is freed twice), logging, and
-- interleavings inside a locked section: what stands between the lock and the unlock of a service
-- is one run. An int that overflows is a fault, but for the events: the collector escapes its text by
-- `xmlescape_small`, which is `xmlescape` for a text whose escaped form and NUL fit an int.
-- `update_meta_from_stream`, the generation of device and service descriptions and the GStreamer
-- module are not modelled.
pub mod XmlEscape
pub mod Prelude
pub mod XmlDoc
pub mod VariableContainer
pub mod LastChangeBuilder
pub mod LastChangeCollector
pub mod ActionEvent
pub mod Output
pub mod Arguments
pub mod Device
pub mod Abstract
pub mod Transport
pub mod Control
pub mod ConnectionManager
pub mod WebServer
pub mod Tests
