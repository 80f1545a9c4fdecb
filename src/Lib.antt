-- ===== src/Lib.antt =====
-- A model of the web frontend of the inference mesh (src/frontend/src), with theorems about it.
--
-- The program. A page shows a cluster of machines that host a language model, and a chat with it.
-- `ClusterProvider` (services/cluster.tsx) keeps a stream of status messages open, over the client
-- of services/http-stream.ts, and holds the cluster's information, the list of its nodes and the
-- user's configuration. `ChatProvider` (services/chat.tsx) holds the messages and the status of a
-- chat; it asks over a stream of events, `createSSE` in the same file, and takes the texts that come
-- apart with the parsers of services/chat-helper.tsx. The components show these states and call the
-- providers' actions; the routers move the page with the cluster's status.
--
-- The files. `Common` and `Js` hold what the others share: tests on numbers, lists, texts as lists
-- of code units with the methods of String, JSON values, and results that may throw.
--   Stream/Frames      the line buffer of both readers
--   Stream/Response    a response apart from its cuts into chunks, as a quotient
--   Stream/Walk        `walk` in `processLines` of services/chat.tsx
--   Stream/Sse         `createSSE` of services/chat.tsx: Lines is `processLines`, Connection the
--                      promise chain of `connect` with `disconnect`, Client all connections
--   Stream/Http        one request of services/http-stream.ts: `send`, its promise chain, `abort`;
--                      Client has all requests of a client, with the variables that they share
--   Chat/Helper        `parseGenerationQwen` and `parseGenerationGpt`; Qwen/Closed is about a
--                      thinking block that is closed, Gpt/Spans about the parts of a match, Gpt/Laws
--                      about a generation in channels, Gpt/Fuel about the loop over the matches
--   Chat/Messages      the messages and the callbacks `onOpen`, `onMessage`, `onClose`, `onError`;
--                      Deltas is about the deltas of one answer
--   Chat/Format        the formats of the answers, as an interface that the views use: a generation in
--                      channels, one with a thinking block, and a plain text
--   Chat/Actions       `generate`, `stop` and `clear`; Invariant has the steps of the whole chat
--   Chat/Session       the callbacks of `createSSE` run by the handlers that `ChatProvider` gives it:
--                      Lines is about the lines of a response, Chunks about one chunk, Stopped
--                      about an answer that is stopped before its response has come, Accepts about
--                      the messages that are read in any state
--   Cluster            Nodes is the update of the node list, with Lookup its view as a map, Info the
--                      status messages, Config the model list, the model's name and `init` of
--                      services/cluster.tsx, Api the answers that services/api.ts accepts, Session a
--                      response of the stream, with Recovery one that fails, Provider the value that
--                      the components get
--   App                App.tsx: the page of a cluster's host as a whole, that is the provider with the
--                      path and the dialogs, and the effects that depend on it; Effects is about each
--                      of these, Laws says how all agree, Names is about the configured model,
--                      Arrival and Leaving about the way to the chat and from it; Node is the page of
--                      a node, and Contexts has the providers, one in the other
--   Ui/Hooks           hooks/use-const.ts and hooks/use-callback.ts
--   Ui/Dialog          components/mui/dialog: `AlertDialog` under `useAlertDialog`; View has the
--                      elements that it renders
--   Ui/NodeList, Ui/Scroll, Ui/MessageView, Ui/ChatView, Ui/ChatInput, Ui/NumberInput,
--   Ui/ModelSelect, Ui/JoinCommand, Ui/Markdown
--                      components/inputs: node-list, chat-messages (how it scrolls, a message, and
--                      all messages), chat-input, number-input, model-select, join-command and
--                      chat-markdown; the children View have what is shown of a node or a choice, or
--                      is handed to the library; ChatView/Copies is about the mark of a copied
--                      message, and ChatView/Conversation about questions and answers one after the
--                      other
--   Ui/Pages           pages/setup.tsx and pages/join.tsx: what they decide; View has their parts, and
--                      Setup the button to continue over time
--   Ui/MainLayout      components/common/main-layout.tsx
--   Ui/Notification    components/mui/alert/notification.tsx; Ui/Snackbar is `Simple` of
--                      themes/components/feedback/notistack.tsx
--   Ui/Drawer          components/common/drawer-layout.tsx: the dialogs that open by themselves; View
--                      has the properties of all its dialogs, and its side
--   Ui/TitleIcon       components/mui/title-icon: the color and the outline of an icon
--   Ui/Button          themes/components/form/button.ts: shadows, colors and measures by variant; Icon
--                      has the measures of icon buttons
--   Ui/AlertStyle      themes/components/feedback/alert.tsx: styles by variant and severity
--   Ui/Router          the redirections of router/main.tsx and router/chat.tsx; Steps has the effect of
--                      the first and its timer over time
-- Each child `Laws` holds the theorems of its parent; `Tests` applies them at concrete inputs.
--
-- How it is modelled. A component's state is a record, and each callback a function of that state;
-- the calls that it makes are its outputs. What the platform does (fetch, the reader, timers,
-- promises) enters as a sequence of events, in any order, and an event that does not fit the state
-- changes nothing. A function that can throw returns a `Result`. `JSON.parse` and `parseInt` are
-- parameters, and so are `JSON.stringify`, `Number`, the conversion of a number to a text, the map of
-- the logos, and how react-router compares a route with a path. Strings
-- are texts of UTF-16 code units, and `toLowerCase` maps the ASCII letters. Numbers of JSON are
-- natural numbers: no code of the model looks at fractions or signs. The sums of `NumberInput` are
-- rounded to doubles. An aborted fetch is rejected with the reason of the abort, before any other
-- event; a call of `scrollTo` waits for an animation frame.
-- Of the loops, the reading loops run over the events, and the loop of `parseGenerationQwen` over
-- fuel, one more than the length of the text: each round takes at least the opening tag out of it.
-- The loop of `parseGenerationGpt` has the length of the text as fuel: each round goes on behind the
-- place where it began. A loop that uses up its fuel returns `none`.
-- The loop that loads the models runs over the answers of the server.
--
-- Not modelled: other styles of the components (themes, components/brand), class names, and the thin
-- clients of apis. The text decoder stands before the model: a chunk is the text that
-- `decoder.decode(value)` returns for it. The backend, the scheduler and the inference engine are
-- written in Python and are not modelled.
pub mod App
pub mod Common
pub mod Js
pub mod Stream
pub mod Chat
pub mod Cluster
pub mod Ui
pub mod Tests
