-- ===== src/Lib.antt =====
-- yunt is a mail server for development: SMTP takes messages in, IMAP, JMAP and an HTTP API show them,
-- a repository keeps them. The library models its Go code under internal/, a component at a time; a
-- definition bears the name of the function or type it models, in lower case with underscores.
--
-- Prelude: names and lemmas that the components share; maps as association lists whose lookup finds
-- the last insertion, as a Go map has it.
-- Repository/Circuit: internal/repository/circuitbreaker.go. A breaker is a record; `allow`,
-- `record_success`, `record_failure`, `reset` and `execute` are steps on it, with the readings of the
-- clock as arguments. Each method holds the mutex throughout, so sequences of `Call` are all the
-- interleavings; `execute` takes what others do during the call as an argument. Invariant, Outage and
-- Notices hold the proofs.
-- Smtp/Reply, Window, RateLimit: internal/smtp/ratelimit.go. `RateLimiter` is its struct; Window is
-- what its methods do to one map of counts with the ends of their windows. Windows, Blocking,
-- Connections and Backoff hold the proofs.
-- Smtp/Address: `extractAddress` and `isValidEmailFormat` of internal/smtp/session.go, on code points.
-- Smtp/Session: the commands MAIL, RCPT and RSET of internal/smtp/session.go, with `validateRecipient`
-- of internal/smtp/backend.go and `IsLocalDomain` of internal/smtp/config.go.
-- Smtp/Connection: NewSession of internal/smtp/backend.go and DATA, the logins and Logout of
-- internal/smtp/session.go, which thread the session and the rate limiter. Receipt, Limits and Life hold the
-- proofs; Life says what may happen to the connections of a server.
-- Smtp/Storage: `storeMessage` of internal/smtp/backend.go, from the parsed message to the sessions that
-- are told of it; Arrival holds the proofs.
-- Domain/Message: the message of internal/domain/message.go. Domain/Mailbox: the mailbox of
-- internal/domain/mailbox.go with its counters; Contents relates them to the messages they count.
-- Imap/Flags: internal/imap/flags.go. Imap/Store: the STORE command of internal/imap/store.go, which
-- goes over messages, calls the repository, and changes the message in memory. Imap/Expunge:
-- internal/imap/expunge.go with the descending sort of internal/imap/copy.go. Imap/Copy: COPY and MOVE of
-- internal/imap/copy.go; Account and Outcome hold the proofs.
-- Imap/Listing: the LIST command, internal/imap/mailbox_list.go and the names of
-- internal/imap/mailbox.go. Wildcards and Reference hold the proofs.
-- Jmap/Threading: `ResolveThreadID` of internal/jmap/thread/threading.go with its two queries of
-- internal/repository/sqlite/message.go. Winner and Merge hold the proofs.
-- Domain/Webhook: internal/domain/webhook.go. Repository/Webhooks: the rows and queries of
-- internal/repository/sqlite/webhook.go that the dispatch uses. Service/Dispatch: `TriggerEvent` and
-- `dispatchWebhook` of internal/service/webhook.go, which go over both. Steps,
-- Attempts, Tallies and Exhausted hold the proofs.
-- Service/Notify: internal/service/notify.go, a map of maps of subscriptions; Everywhere, Subscribers,
-- Invariant, Counts and Delivery hold the proofs. Service/Relay: internal/service/relay.go; Tries and
-- Recipients hold the proofs.
-- Api/Rbac: internal/api/middleware/rbac.go. Api/Users: the route that changes a password, with
-- internal/api/handlers/users.go and internal/service/user.go. Access and Passwords hold the proofs.
-- Domain/User, Domain/Token: what the authentication reads of a user, and the sessions and answers of
-- internal/domain/token.go. Service/Sessions, Service/Auth: the sessions in memory and the
-- authentication of internal/service/auth.go; Service/Auth/Login has its four large operations. Keyed,
-- Users, Gone, History, Rotation and RoundTrip hold the proofs.
-- Repository/Mailboxes, Service/Mailboxes: the mailbox service of internal/service/mailbox.go over the
-- queries of internal/repository/sqlite/mailbox.go. Defaults and Operations hold the proofs; Operations
-- also has the sequences of calls.
-- Jmap/Dispatcher: internal/jmap/dispatcher.go over JSON values (Values), with the references between
-- calls (Calls). Answers, Paths, References, Resolution and Arguments hold the proofs.
-- Imap/Search: the handlers of internal/imap/search.go, with the parser (Criteria) and the matcher
-- (Match) of internal/imap/search_parser.go. Meaning says what a request asks for; Empty, Slots, Headers,
-- Meaning and Results hold the proofs.
-- Examples: concrete runs.
--
-- The components meet where the program's do: the connection calls the rate limiter at its opening,
-- at logins, at DATA and at its end; STORE computes with flag sets that it reads off messages; EXPUNGE
-- deletes what STORE has marked; MOVE deletes by the loop and the sort of EXPUNGE; the dispatch of an
-- event makes deliveries of the domain and counts them in the rows of the repository; a message that SMTP
-- stores is announced by the notifications; SEARCH reads the flags of a message by the flag sets; the
-- mailbox service keeps its mailboxes in the table of the repository; the
-- claims of a token are those that the middleware of roles looks at.
--
-- Numbers are natural numbers. Thresholds of the breaker are integers, since a negative setting falls
-- back to the default; a limit of the rate limiter that is zero or negative is off, which 0 stands for.
-- The delay of a violator and the counters of a mailbox are 64-bit words that wrap, sequence numbers and
-- the next UID wrap at 2 ^ 32; other counters are far from their bounds. Times are nanoseconds on a clock
-- that does not run backwards. The only fuel is the number of positions that a sort has left, which is the length of its list, and the rounds
-- that the loops of the dispatch and of the relay have left, which their own conditions bound.
--
-- Parameters stand for code outside the repository or behind its interfaces: the calls of the message
-- repository and whether they fail, the search for a mailbox, the authenticator, the comparison of
-- texts without regard to case, the split of a remote address, the number sets of the IMAP library and its sets of UIDs, the
-- HTTP client of a webhook, the connection of the relay, bcrypt, jwt, the digest of a token, the ids
-- of uuid, the folding and finding of texts of the package strings, the dates of the package time, what
-- encoding/json makes of a reference, the order in which the keys of a map are visited, the trimming of
-- package strings, the regular expression of addresses, the comparison NOCASE of SQLite.
-- The search for a mailbox answers the same to RCPT's two questions.
--
-- Not modelled: logs, metrics and statistics; how a received message is built, its
-- attachments; what IMAP sessions do with notifications; the rest of JMAP, of the HTTP API, of the services and of the repository.
-- The operations of the mailbox service run one after the other; a transaction that fails leaves the table
-- as it was, and the database itself does not fail.
-- Dispatches to several webhooks run at once in the program and one after the other here.
pub mod Prelude
pub mod Domain
pub mod Examples
pub mod Imap
pub mod Repository
pub mod Smtp
pub mod Jmap
pub mod Service
pub mod Api
