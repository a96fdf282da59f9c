-- ===== src/Lib.antt =====
-- plcsim_connector: a model of the connector to S7-PLCSIM Advanced, and what holds of it.
--
-- The program lets a C++ or Python client read and write single bits of a simulated PLC. Its parts, from
-- the bottom:
--   include/plcsim/Types.hpp, src/Types.cpp    Types      areas, operating states, instance identities
--   include/plcsim/Error.hpp, src/Error.cpp    Error      the kinds of failures, and which are retryable
--   include/plcsim/Address.hpp, src/Address.cpp
--                                              Address    the parser of texts such as "%I10.2"
--   src/SdkBridge.cpp                          Text       UTF-8 and UTF-16 (to_utf8, to_wide)
--                                              Bridge     error codes and enumerators of the SDK (classify,
--                                                         throw_error, check, to_sdk, from_sdk)
--                                              Diagnostics
--                                                         win32_error_message, probe_dll_load,
--                                                         is_process_elevated
--                                              ApiHandle  g_api_refcount, g_api_manager, class ApiHandle;
--                                                         ApiHandle.Threads has g_api_mutex
--                                              Instance   Instance::Impl; Instance.Methods has the
--                                                         methods of Instance
--                                              RuntimeManager
--                                                         RuntimeManager and its methods
--   bindings/python/module.cpp                 Bindings   exception classes, raise_as_python, repr;
--                                                         Bindings.Methods has the registered methods,
--                                                         Bindings.Values parse_bit_address and BitAddress
--   bindings/python/plcsim_connector/__init__.py
--                                              Python     RuntimeManager.__init__; Python.Search has the
--                                                         search for the API DLL, Python.Waiting
--                                                         wait_for_instance, Python.Reconnecting the
--                                                         class ReconnectingInstance
--   bindings/python/plcsim_connector/__main__.py
--                                              Python.Command
--                                                         main
--   examples/cpp/di_do_demo.cpp                Demo       main
--   examples/webots/di_do_controller.py        Webots     main, on_reconnect
-- System puts these objects together: the RuntimeManagers and Instances of a process, and what its clients
-- do with them in any order. Std has what the sources use of the C++ library, Common what all modules share.
--
-- A RuntimeManager owns an ApiHandle. Its attach gives an Instance a copy of that handle, so the API stays
-- loaded until both are gone. An Instance calls the parser, checks the offset against the size of the area
-- and calls the SDK; a failing code becomes an Error by way of classify. A ReconnectingInstance of the
-- Python package keeps a RuntimeManager and an Instance, lets go of both when a call fails with a retryable
-- error, and attaches anew.
--
-- How the code is translated. The Siemens SDK and Win32 are not in the repository: they are the parameter
-- `Sdk S` (file Sdk), a record of functions on a state S that the model never looks into. Code that may
-- throw is a program `Prog St A` (file Prog): it takes the state and gives back an outcome (returned,
-- thrown, or undefined for a call through a null pointer) and the new state, and a throw keeps the changes
-- made before it. `World` is what all objects of the process share, `Held` one instance with it, and
-- `Client` the same through the pointer impl_, which is null in an object that was moved from. The methods
-- of a RuntimeManager take the handle of its impl_. Simulator is a small SDK for the tests. A Python function
-- is a program `Py St A` (file Python): it returns, raises an exception, or crashes in the native code. The
-- registry, the file system, the clock and the hook of a ReconnectingInstance are parameters. Objects that
-- nothing refers to any more are destroyed at once, as CPython's reference counts do it.
--
-- Numbers. A byte is a number below 256 and a text a list of bytes; the parser keeps the arithmetic of
-- uint32_t and uint8_t. The reference count is unbounded: an int would overflow with 2^31 handles. Loops
-- are recursions on the text, or on what is left of the count in registeredInstances. std::to_string has
-- n + 1 rounds of fuel for the number n, and every round divides by ten.
-- wait_for_instance, connect and the first loop of the Webots controller run for a number of rounds that is
-- given and say so when they still wait; with a timeout, timeout / poll_interval + 2 rounds of
-- wait_for_instance are enough, since each round but the last sleeps for poll_interval.
--
-- Threads. Every function that changes the globals holds g_api_mutex from its first access to its last.
-- ApiHandle.Threads runs any number of threads through them access by access, in any order; the rest of the
-- development takes each function as one step, as ApiHandle.Process does for the handles of a process.
-- ApiHandle::manager reads g_api_manager without the mutex. A thread has its own handles, and can pass one
-- on by a move; accesses are sequentially consistent, and a thread that finds the mutex locked tries again
-- when its next turn comes.
--
-- Not modelled: the type stubs of the Python package, live tests and build files. The Webots simulator is the
-- sequence of its sensor readings. Allocation does not fail.
pub mod Common
pub mod Std
pub mod Types
pub mod Error
pub mod Address
pub mod Prog
pub mod Sdk
pub mod Text
pub mod Bridge
pub mod Diagnostics
pub mod ApiHandle
pub mod Instance
pub mod RuntimeManager
pub mod Bindings
pub mod Simulator
pub mod System
pub mod Demo
pub mod Python
pub mod Webots
