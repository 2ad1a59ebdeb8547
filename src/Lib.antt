-- ===== src/Lib.antt =====
-- The unity-system-compositor: a Mir display server that shows the sessions of the display manager, a
-- greeter, a user's session and a boot spinner, and turns the outputs of the machine on and off.
--
-- The parts and how they interact:
-- Session - src/session_monitor.h and src/window_manager.cpp. A session of Mir, and the calls made on
--   Mir's shell, which are recorded in order.
-- Spinner - src/spinner.h and src/external_spinner.cpp. The interface `Spinner` is what the switcher
--   relies on; the external process fills it. Child modules: Laws, and Processes for the
--   children of the process.
-- Switcher - src/session_switcher.h and src/session_switcher.cpp. Mir (through the window manager), the
--   display manager and the screen call it, and it decides which sessions are shown. Plan is the
--   specification, Refinement shows that the code carries it out, Display and Shown say what stands on
--   the display afterwards, Runs, Assigned and History are about every history of calls, and Messages puts
--   the switcher behind the display manager's connection.
-- DmConnection - src/dm_connection.h and src/asio_dm_connection.cpp. Messages from the display manager
--   become calls of a handler. Child modules: Frames (whole messages), Failures.
-- ScreenEventHandler - src/screen_event_handler.cpp and src/clock.h. Input events become notifications
--   of the power button and of user activity. Child modules: Rate, Notified, Reference.
-- MirScreen - src/screen.h and src/mir_screen.cpp. Outputs are powered on and off, and registered
--   handlers are told how many are active. Child modules: Counts, Runs, Cases, Told, Power.
-- InputConfiguration - src/input_configuration.h and src/mir_input_configuration.cpp. The settings of
--   mice and touchpads and the devices that have them. Child modules: Runs, Current, Known.
-- Dbus - what the two services use of libdbus, as a parameter.
-- InputService - src/unity_input_service.cpp. D-Bus calls set the input configuration. Child module:
--   Table, its specification.
-- DisplayService - src/unity_display_service.cpp. D-Bus calls turn outputs on and off, and changes of
--   the outputs are signalled. Child modules: Answers and Table (its
--   specification and that the code keeps to it), Signals, and OnScreen, the service on the screen of
--   src/mir_screen.cpp.
-- EventLoop - src/dbus_event_loop.cpp. Which descriptors the loop of the services waits for, and the
--   actions that are enqueued on it. Child modules: Wanted, Watching, Actions, Timers (the timeouts and
--   their descriptors) and Loop (the run of the loop among the threads that call it).
-- Compositor - src/session_switcher.cpp over src/mir_screen.cpp: the switcher registers itself at the
--   screen, and the screen's handlers act on it. Child modules: Handlers (who else is registered),
--   Current (the counts that the switcher goes by), Linked, Destroyed.
-- Eglspinner - spinner/eglspinner.cpp and spinner/eglapp.cpp, the program that the external spinner
--   runs. Child modules: Config (the configuration file), Options (the command line), Surfaces (which
--   surfaces are made), Paint (the turn of the picture and its dots) and Animation.
-- MirEgl - spinner/miregl.h and spinner/miregl.cpp: the EGL context and the surfaces of that program.
--   Child modules: Rules (resources and the current surface), App (the constructor of the context) and
--   Session, the run of the program, with Takes and Balance (what is acquired and given back) and
--   Standing and Current (which surface is current).
-- Server - src/server.h, src/server.cpp and, as Server/SystemCompositor, src/system_compositor.cpp: the
--   parts are made when they are first asked for, and the program starts them. Child modules: Order and
--   Factories (each part behind what it is constructed from), Startup, and Configured for the
--   constructor, with src/display_configuration_policy.cpp, src/main.cpp and, as Listener, the status
--   listener.
-- DbusHandles - src/dbus_message_handle.cpp: who owns what libdbus hands out. Child modules: Owned, and
--   Connections for src/dbus_connection_handle.cpp, the connections of the loop and the constructors of
--   the services and the sinks, with Owed and GivenBack.
-- EventSinks - src/unity_power_button_event_sink.cpp and src/unity_user_activity_event_sink.cpp: the
--   notifications of ScreenEventHandler as signals on the bus.
-- ThreadName - src/thread_name.cpp.
-- Outcome - code that calls the outside and may throw, for MirEgl and DbusHandles/Connections. Child
--   module: Endings, the rules for how a chain of calls ends.
-- Prelude - shared names, strings as lists of bytes, association lists for std::map, integers.
--
-- State is passed explicitly: a method is a function from the object's record to the record after
-- it, `none` where the code would go through a null pointer, and calls on the outside are kept in
-- a list with the last one first. A method that holds a mutex is one step. Every loop of the code
-- goes through a container and is structural recursion, so no fuel is needed, but for the run of the
-- event loop, which is a step relation, and the loop of the spinner's program, which runs any number of
-- rounds. A std::map is an association list that is sorted by its keys. Names are compared byte by byte.
-- A process id and a time are integers.
--
-- What is not under src is a parameter: Mir's sessions (`Scene`), its display and compositor
-- (`Mir`, whose calls may throw), its input devices and their settings, libdbus, epoll, timerfd, the
-- reading of floats and regular expressions, the type double, fork(), the clock, EGL and the Mir client
-- library, and what Boost hands over when a read completes. Logging and the writing of bytes into a pipe
-- that fails are left out. The drawing of the spinner's program is not part of the model, and neither is the builder of
-- the window manager, through which Mir may ask for the session switcher before the other parts.
pub mod Prelude
pub mod Session
pub mod Spinner
pub mod Switcher
pub mod DmConnection
pub mod ScreenEventHandler
pub mod MirScreen
pub mod InputConfiguration
pub mod Dbus
pub mod InputService
pub mod DisplayService
pub mod EventLoop
pub mod Eglspinner
pub mod Compositor
pub mod Server
pub mod DbusHandles
pub mod EventSinks
pub mod MirEgl
pub mod Outcome
pub mod ThreadName
