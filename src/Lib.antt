-- ===== src/Lib.antt =====
-- Verification library of the native part of VncFlinger, a VNC server for Android.
--
-- The program has two native parts, both called from a Java service. src/vncflinger is the VNC server:
-- an AndroidDesktop hands the key and pointer events of the viewers to an InputDevice, which writes
-- them to the kernel through /dev/uinput, and a VirtualDisplay and an AndroidPixelBuffer bring the
-- frames; main.cpp reads the arguments, makes the listening sockets (AndroidSocket.cpp) and runs the
-- event loop. src/audiostreamer streams recorded audio over a socket that socketmanager.cpp makes.
--
-- Files.
--   Prelude: shared names, Boolean tests, lists over the native numbers, 32-bit integers.
--   Input: src/vncflinger/InputDevice.{h,cpp}. Kernel has the state of the class, the log of kernel
--     calls and the monad of its methods; Tables the tables from `keysymToAscii` to `qwerty`; Inject
--     `inject`, `injectSyn`, `movePointer`, `setPointer`, `press`, `release`, `click` and
--     `doKeyboardEvent`; Keyboard `doBasicKeyEvent` and `keyEvent`; Pointer `pointerEvent`; Lifecycle
--     `start`, `start_async`, `stop`, `reconfigure`, the constructor and the destructor; Session has
--     histories of calls of the public methods, and Taken is about what they write being registered.
--   Jni: the strings that main.cpp and audiostreamer.cpp take from Java and give to it.
--   Sockets: src/audiostreamer/socketmanager.cpp and src/vncflinger/AndroidSocket.cpp. Net has the
--     socket calls, Create the makers of sockets and the constructors of the two listeners, Path the
--     address of a Unix socket, Listeners the listeners' other methods, Send `canSend` and `sendDataSocket`.
--   Audio: src/audiostreamer/audiostreamer.cpp. Args has the arguments of `audio_main`, Record
--     `audiostreamer_init` and `audiostreamer_record_thread`, Serve `audiostreamer_create_thread`,
--     `audio_main` and the JNI function `startAudioStreamer`, Leak and Streamer what these leave open.
--   Binder: src/vncflinger/VNCService.h, a binder service in front of a class that the repository does
--     not have; no file of the repository includes it.
--   Pixels: src/vncflinger/AndroidPixelBuffer.{h,cpp}, every operation but the accessors; Told has the
--     calls of the listener, Sizes the client's size.
--   Display: src/vncflinger/VirtualDisplay.{h,cpp}; Viewport has the place of the picture, Whole an
--     arithmetic for tests.
--   Desktop: src/vncflinger/AndroidDesktop.{h,cpp}. State has the members and the monad, Size the methods
--     that follow the display's and the window's size, Server the other ones, History a run of calls;
--     InStep, Listening, Layout, Running, Frames, Calls and Steps are about the parts keeping one size,
--     Viewer about a request for a size, Pointer about the place of a pointer, Wake about the
--     notifications of the event loop, Devices about what a desktop makes of its input device and of its
--     log, Drawn about the buffers of its frames; Samples has a desktop for tests.
--   Main: src/vncflinger/main.cpp. Arguments has `desktopSetup`, with the parameter library of the RFB
--     server as `Params`; Service has `startService` with its event loop, and Loop, Counts and Ends are
--     about it. Process has the statics of the file and the JNI functions as steps of one process, in
--     which the desktop with its display, its buffer and its input device is a part: a service that
--     runs is its beginning, the calls that the RFB server makes of the desktop and the display events
--     that the loop processes, and its end, with other JNI calls in between. Rules says which steps
--     come when; Invariant, Sound, Surface, Callback, Initializing, Typing, Holding, Pointing, Devices, Events and
--     Frames are about such histories, and Whole takes the calls of a `startService` of Service as
--     steps of such a process.
--   A function of the model has the name of the source's function, in lower case with underscores.
--
-- Parameters. The kernel behind /dev/uinput and the socket calls are not part of the program:
-- `Kernel` and `Net` answer each call from the log of the calls before it, and the theorems hold for
-- all of them, or state what they need of them. So do the floats (`Floats`, with the laws
-- `IsRounded` and `IsScaling`), the display of the phone (`Platform`), `atoi`, AudioRecord, `malloc`
-- and the class VNCFlinger. What the RFB library and `select` return in a round of the event loop is
-- in the list of its rounds. A Java string is the bytes that `GetStringUTFChars` gives. The
-- network library's listener, with its `listen` and its destructor, is `Base`, and what Java and the loaders of icons and
-- surfaces return is an argument. The constants of X11's keysymdef.h and of the kernel's input-
-- event-codes.h and uinput.h are written by their values.
--
-- Bounds and fuel. `sendDataSocket` has a loop with no bound in the source; one round for each byte and
-- one more is fuel enough, since each round that goes on sends at least one byte. All other loops are
-- recursions on a table, on the arguments, on the reads of a session or on the count of key codes.
-- Differences of pointer coordinates wrap as an int32_t; a button mask is a natural number, as RFB sends
-- a byte. A negative file descriptor of the input device is `none`.
--
-- Loops that run until a flag is set take a list with one entry for each round in which it is not.
--
-- A rule of Rules and of `turn` that the code does not ensure: the event loop processes the display only
-- once the RFB server has started the desktop.
--
-- Not modelled: log output, time stamps, the device's name, the thread of `start_async` (its future is
-- awaited at once), the buffer queue of the virtual display, the desktop's name and the version text of
-- main.cpp, its binder thread pool, and the Java service.
pub mod Prelude
pub mod Input
pub mod Jni
pub mod Sockets
pub mod Audio
pub mod Binder
pub mod Pixels
pub mod Main
pub mod Display
pub mod Desktop
