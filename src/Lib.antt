-- ===== src/Lib.antt =====
-- The verification library of xiaozhi-pc, a desktop client of the xiaozhi voice assistant.
--
-- The program, and the files here that model its parts (paths from the repository's root):
--
-- Application (src/application.cc, src/application.h) owns the device's state machine and the two
-- audio queues. Four threads work on it: the main loop, which runs the tasks that `Schedule` adds;
-- the audio loop; the background task, which encodes and decodes; and the threads of the protocol.
-- `Application.State` holds its fields and, as data, one constructor for each lambda that is put on a
-- queue. `Application.Audio` has `OnIncomingAudio`, `OnAudioOutput`, the two background jobs,
-- `ResetDecoder` and `SetDecodeSampleRate`; `Application.Device` has `SetDeviceState` with a
-- definition for each case of its `switch`, `Alert` and the network error callback;
-- `Application.Handlers` has the tasks, the callbacks of the protocol and `ToggleChatState`;
-- `Application.Start` has `Start` up to the main loop; `Application.Session` puts them together as the
-- steps of the threads. `Application.Bounds`, `Application.Transitions`, `Application.Coherent` and the
-- children of `Application.Session` prove what holds of them. `Application.EventLoop` has `EventLoop`, which
-- nothing calls. One call of a handler, one task, one job
-- and one round of the audio loop are atomic here. What is done outside
-- (display, codec, protocol) is a trace. What the protocol answers is an argument of the step. The
-- Opus library is any function of the number of the call and its data.
--
-- MainLoop and BackgroundTask (src/application.cc, src/background_task.cc,
-- src/porting/freertos/event_groups.cc) model `Schedule` with `MainEventLoop`, and the background
-- task, at the grain of the mutexes: their steps are the critical sections, in any interleaving, as an
-- indexed data type with reachability. A task is a number there. MainLoop keeps one bit of its event
-- group; EventGroup has the group for any bits and masks, and `EventGroup.Waiting` ties the two together.
-- UdpClient (src/porting/impl/udp_client.cc) models the owner and the receiver of a UDP client in the same
-- way: a second thread of owners is not there, and what the system answers is an argument.
--
-- Nvs and Settings (src/porting/nvs_flash.cc, src/settings.cc) model the key-value store: `Nvs.Line`
-- has the parser and the printer of the file, `Nvs` the functions `nvs_*`, `Settings` the class over
-- them. A table is an association list, whose order stands for the order in which the hash table is
-- iterated. The loop that loads the file runs on fuel: one more than the bytes of the file, of which
-- each round takes one at least. A moved-from string is taken to be empty. `Nvs.File`, `Nvs.Tables`,
-- `Nvs.Reboot`, `Nvs.Access` and `Settings.Values` prove what readers find after writers. `Nvs.Writes` follows any
-- number of writes into the next process, and `Nvs.Abstract`
-- takes the tables up to their order, as the quotient by what a search finds.
--
-- Protocol and Mqtt (src/protocols/protocol.cc, src/protocols/mqtt_protocol.cc): `Protocol` has the
-- texts that are sent and the timeout; `Mqtt.Packet` the encrypted datagrams; `Mqtt.Hex` the
-- hexadecimal decoder; `Mqtt.Hello`, `Mqtt.Client` and `Mqtt.Opening` the server's hello, the connection,
-- the messages and the opening and closing of the channel; `Mqtt.Channel` the datagrams with their times.
-- `Mqtt.Answer` says which messages answer the hello, and `Mqtt.Session` what the opening makes of them.
-- `Mqtt.Delivery` and `Mqtt.Stream` prove what arrives of what is sent. Parameters: the cipher of mbedtls (with the documented laws of
-- the counter mode, `Mqtt.Delivery.IsCounterMode`), the calls of cJSON (`Mqtt.Hello.Json`), the MQTT
-- client's `Connect` and `Publish`, the size of a `std::string` object, and the messages that arrive
-- during the wait. An access through a null or dangling pointer and a thrown exception are values.
-- A client that `Connect` has started counts as not connected until the library reports the connection.
--
-- Ota (src/ota.cc) models the request for a new version and how the answer is taken apart and stored,
-- over the models of the HTTP client and of the settings. `Ota.Update`, `Ota.Provision` and
-- `Ota.Configured` follow the answer into the store and out of it into the MQTT client.
--
-- Codec (src/audio_codec.cc, src/porting/impl/sdl_audio_codec.cc) models the codec over two SDL
-- streams: its flags are state, what SDL is told is a trace, and what SDL answers is in the trace or an argument.
-- A stream that could not be bound to its device resumes and pauses nothing.
-- AudioProcessor (src/porting/impl/sdl_audio_processor.cc) has the processor's queue and its thread as a
-- step relation, whose steps are the sections under its mutex and the call of the callback. AudioInput
-- (src/application.cc) joins the two as `OnAudioInput` and `ReadAudio` do, with the audio loop and the
-- processor's thread in any interleaving. Opus (src/porting/impl/opus_wrapper.cc) has the wrapper, with
-- the functions of libopus as a record, and `Opus.IsBounded` for the sizes that libopus documents.
--
-- Display (src/porting/impl/ui_thread.cc) models the sample arrays of the window, with a round of fuel
-- for each sample; `Display.Window` what is drawn of them, where an access outside a vector is `none`,
-- and the window's events; `Display.Startup` the start of the window with its thread, the condition variable's notification and spurious wake-ups included. The searching and the drawing loop count down the rounds that the source
-- makes, 1000 and 320. HttpClient (src/porting/impl/http_client.cc) has the HTTP client, with the
-- library cpp-httplib as a function from the request to the result.
--
-- Board (src/porting/impl/board.cc, src/system_info.cc) has the UUID, over the models of the settings
-- and of the store, with the random engine as a function of the number of the call. PahoMqtt
-- (src/porting/impl/paho_mqtt.cc) has the adapter to the Paho library: what the library is told is a
-- trace, what it returns an argument, and what it reports an event. `PahoMqtt.Reopening` puts it under
-- `OpenAudioChannel`. `Board.Fake` (src/porting/impl/fake_board.cc) says what the board makes.
--
-- Base has the shared tests, list lemmas, byte strings, dictionaries and C integers. A `std::string` is
-- the list of its bytes. Machine integers wrap where the source lets them wrap. The steady clock is a
-- number of nanoseconds. Examples applies the theorems at concrete inputs.
--
-- Not modelled: the display that only prints, the LED that does nothing, the creation of threads and
-- `main`, which are glue; the destructors of the application and of the protocol, which only delete; the
-- set-up of winsock; what other threads do during `Start`; jobs that other threads add while
-- `WaitForCompletion` runs inside a handler; and the mutexes inside the application's handlers.
pub mod Base
pub mod Nvs
pub mod Settings
pub mod Application
pub mod Mqtt
pub mod BackgroundTask
pub mod EventGroup
pub mod MainLoop
pub mod UdpClient
pub mod Display
pub mod HttpClient
pub mod Protocol
pub mod Ota
pub mod Examples
pub mod Codec
pub mod AudioProcessor
pub mod AudioInput
pub mod Board
pub mod Opus
pub mod PahoMqtt
