-- ===== src/Lib.antt =====
-- Verification of moonlight-tv, a game streaming client for televisions (C).
--
-- The parts that are modelled, and how they act on each other:
--
--   Ctmb      the message format of the HID bridge (src/app/hid_passthrough/ctm_bridge_protocol.h):
--             a header and its packed bytes, a frame and its reading.
--   Enet      the transport of these messages (src/app/hid_passthrough/enet_transport.c). Enet/Ring
--             is the ring of messages that the client keeps twice; Enet/Client is the client, with
--             one function for each of `enet_client_*`. A send stamps a header and puts it in the
--             outbox, the service loop flushes it as a frame and takes the frames of the peer.
--   Transport the same messages over TCP, or over ENet where it answers
--             (src/app/hid_passthrough/ctm_transport.c). Transport/Socket has the loops over partial
--             sends and receives.
--   Hid       the report descriptor of a HID device, walked twice by
--             src/app/hid_passthrough/ctm_hid.c (Hid/Descriptor), and the choice of devices and the
--             answers to the host of src/app/hid_passthrough/hid_device.c (Hid/Device). Hid/Encode
--             has descriptors as they are written, for comparison.
--   Gamepad   the slots of src/app/input/input_gamepad.c: which controller has which number.
--   Pads      what the host is told of them (src/app/stream/input/session_gamepad.c): arrivals and
--             removals in Pads, buttons, combinations and axes in Pads/Buttons.
--   Prefs     the preferences of single devices (src/app/hid_passthrough/hid_pt_device_prefs.c): the
--             table, the ids in Prefs/Ids, the flush of the file in Prefs/File.
--   Passthrough  which gamepad belongs to a HID device, and its handing over from the stream to the
--             device and back (src/app/hid_passthrough/hid_pt_gamepad_match.c); it uses the ids of
--             Prefs and the announcements of Pads. Passthrough/Autoplug is the round that plugs
--             controllers by itself (src/app/hid_passthrough/ctm/ui_bridge.c).
--   Controller  a bridged controller (src/app/hid_passthrough/ctm/controllers). Controller/Session has
--             the handshake and the messages of the host, in controller_common.c `handshake` and
--             `handle_message`; Controller/Pace the reports that wait for their time; and
--             Controller/Output the write of a report: patched by Controller/Ds4 or Controller/Ds5
--             (controller_ds4.c, controller_ds5.c), given its missing audio by Controller/Plc,
--             signed by Controller/Sign, passed over if repeated, and handed to the forwarder
--             (ds5_acl_tx.c) or to hidraw. The other way go the reports of Controller/Coalesce, the
--             battery of Controller/Battery and the evdev gamepad of Controller/Xpad.
--             Controller/Lifecycle is what is held from plugging in to plugging out: threads,
--             link and descriptors. Controller/Ds5/Reference has the patched blocks by patterns,
--             for comparison.
--   Mouse     the virtual mouse that the sticks move
--             (src/app/stream/input/session_virt_mouse.c), fed by the axis events of Pads/Buttons,
--             and in Mouse/Pointer the mouse and touch events
--             (src/app/stream/input/session_mouse.c, src/app/stream/input/session_touch.c).
--   Gesture   clicks and drags by touch (src/app/stream/input/session_pointer_gesture.c).
--   Keyboard  keys and text (src/app/stream/input/session_keyboard.c); Keyboard/Codes has the
--             tables, Keyboard/Remote the keys of the remote
--             (src/app/platform/webos/keyboard_webos.c).
--   Input     the events of a session (src/app/stream/session_events.c), handed to Pads, Keyboard,
--             Gesture and Mouse.
--   Settings  the ini file of settings (src/app/app_settings.c): Settings/Keys has the tests of a
--             line in order, Settings has what each does, Settings/Save what is written, and
--             Settings/Session what a session gets of them (src/app/stream/session.c).
--   Text      the search without case that input_gamepad.c, hid_device.c and ctm_state.c repeat.
--   Base      lists, bits, integers and tests on the native natural numbers.
--
-- State is passed from function to function as records, and calls out of the program (to the
-- streaming library, to ENet, to the host) are lists in the order of the calls. What SDL, ENet, the
-- allocator, the clock and the number parser answer is an argument or a part of the event. The
-- loops of the client that wait on the clock run over a list of rounds, each with the time it sees,
-- and return nothing if the list ends first; a list whose clock passes the timeout is long enough,
-- as is proved. Machine integers keep their wrap-around where they are computed. The builds differ
-- by target: the models of Pads, Keyboard, Settings, Prefs and Passthrough are those of the webOS
-- build, that of Gamepad takes the target as an argument. What a socket answers to the calls of a
-- loop is a list of replies; a loop returns nothing if it ends first, and as many replies as there
-- are bytes are enough if each moves one. The walks over the blocks of a report have the length of
-- its bytes as fuel, and a block has two at least.
--
-- Not modelled: locks and threads (each operation is one step), files and devices beyond the lines
-- and answers that they give, decoding of video and audio, the user interface, the session's life
-- cycle, the list of hosts, the GameStream protocol, what the timer of the virtual mouse sends, and
-- the scan, the manager and the bridge of HID passthrough, with the opening of controllers by the
-- paths of sysfs. The rounded product of a sample and the gain of the haptics, computed in floating
-- point, is an argument. So are the writer and the parser of ini files: the round trips of Settings
-- and Prefs assume of them that plain texts are read as they were written, and no more. The squared
-- distance of a gesture is not bounded, which C's `int` is. Counters for the log do not wrap.
pub mod Base
pub mod Ctmb
pub mod Text
pub mod Enet
pub mod Transport
pub mod Hid
pub mod Gamepad
pub mod Pads
pub mod Settings
pub mod Prefs
pub mod Passthrough
pub mod Controller
pub mod Gesture
pub mod Mouse
pub mod Keyboard
pub mod Input
