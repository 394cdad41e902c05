-- ===== src/Lib.antt =====
-- This library models the Go client of the GridAPPS-D message broker. Each module follows one package:
--
-- - topics/topics.go is Topics, and the header names of message/message.go are Message. Both are byte
--   strings; Bytes are numbers below 256.
-- - transport/transport.go is Transport: the settings of a connection, and messages. Its interfaces
--   have no code; a connection, a subscription and a raw connection are numbers.
-- - internal/stomp/stomp.go is Stomp: Dial with its heart-beats and its deadline, in Stomp.Gate the
--   order of Unsubscribe and Disconnect as a step relation on the fields that the calls of a
--   connection share, and in Stomp.Bridge the goroutine that forwards one subscription, as a function
--   of the schedule of its selects; Stomp.Bridge.Slow is that goroutine in smaller steps over a channel
--   of 16 messages that may be full. Stomp.Calls holds Send, Subscribe and the end of Disconnect.
--   Stomp.Session puts these together: a connection with any number of subscriptions, as a step
--   relation that writes down what go-stomp is asked.
-- - internal/auth/auth.go is Auth and Escape. Auth.Exchange and Auth.Steps are Exchange, fetchToken
--   and endCredentialConn, which run against an Env that answers each call of the transport as a
--   function of the calls before it; a trace lists these calls, the newest first. Escape is
--   escapeBounded, over the UTF-8 decoder Utf8; Auth.Text is the text that joinSteps and
--   boundedError.Error make of the errors of a teardown.
-- - internal/router/router.go is Router: the registry, its readers and the error channel. Router and
--   Router.Reader hold the operations, Router.Step makes one step of each section under the lock and
--   of each move of a reader, so that every interleaving is a sequence of steps. A destState is a
--   number that leads to its record, as two states of one destination must be told apart. Router.Table
--   is the abstract view, the handlers of each destination, and Router.Refinement runs it beside the
--   steps. Router.Exit is about the way out of a reader, Router.Cancel about the subscriptions that Close
--   and Unsubscribe give up, and Router.Tokens about messages.
-- - Pipeline puts the bridge of Stomp under the loop of a Router's reader.
-- - internal/reqresp/reqresp.go is ReqResp, one request with its reply.
-- - gridappsd/client.go is Client: the choice between TCP and TLS, the TLS dial, and Connect, which
--   runs the exchange of Auth with that dial.
-- - fieldbus/fieldbus.go is FieldBus: the bus, which owns a connection of Client and a Router for each
--   session, and sends requests through ReqResp. FieldBus.Overlap splits its calls at the lock, with the
--   routers as a heap that shares the error channel; FieldBus.Wire runs it on Client.
-- - internal/transporttest/fake.go is Fake, the doubles of a connection and a subscription. Fake.Record
--   and Fake.Subs are about calls in any order, and Fake.Reply runs ReqResp against them.
-- - GoError holds the error values of all of them as trees of wrappers, with errors.Is.
-- Common holds what these share: lists, byte strings, and Go maps as association lists. The modules
-- below each one are named for what they prove, and each Tests module applies the theorems to concrete
-- runs.
--
-- Bounds and fuel. escapeBounded runs on the length of its text as fuel, which is enough because each
-- rune takes a byte at least. Digits are written on the number and one as fuel, as no division is by
-- less than ten. publishErr takes the 17 rounds of the source. The token counter is taken below its
-- wrap at 2 ^ 64. Durations are whole nanoseconds of either sign and nothing is added to them, so they
-- cannot overflow.
--
-- Not modelled: the text that fmt makes of an error, but for the errors of a teardown (an error keeps
-- its format, its arguments and what it wraps), the go-stomp library, TCP and TLS (their answers are
-- parameters), and the passing of time. Go's order of map iteration is free: the handlers of a message
-- stand in the order of registration. Drawing a token and the section of Subscribe that uses it are
-- one step. The timer of Disconnect either has fired or has not when go-stomp answers; the durations
-- in its error texts are left out. A panic that is no runtime.Error ends the process in
-- endCredentialConn. In Stomp.Session a receive of a bridge and the select after it are one step,
-- and so are the look of Disconnect at `ended` and its call of go-stomp. In Pipeline the router is
-- left alone while the reader runs.
pub mod Auth
pub mod Client
pub mod Common
pub mod Escape
pub mod Fake
pub mod FieldBus
pub mod GoError
pub mod Message
pub mod Pipeline
pub mod ReqResp
pub mod Router
pub mod Stomp
pub mod Topics
pub mod Transport
pub mod Utf8
