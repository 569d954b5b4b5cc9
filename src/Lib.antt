-- ===== src/Lib.antt =====
-- The model naming layer of abstraction-model: the Go packages identity (identity/), model (go/),
-- service (go/service/) and client (go/client/), with the vocabulary of the generated package api
-- (go/abstraction/model/api/).
--
-- A caller names a model by a text, hf://org/repo@revision#quant, ollama://name:tag, or a scheme of
-- a provider's own. Package model parses it into a Ref, asks the resolver of its scheme for the
-- artifact's digest and its sources, and puts the copies that the machine already has in front.
-- Package service answers the same question to other programs and lets out only what is portable;
-- package client checks what comes back. Package identity is separate: it answers whether two names
-- that two hosts use name one model.
--
--   Base.antt          numbers, tests, lists, results: what all parts share
--   Strings.antt       package strings on ASCII bytes, as far as the program calls it
--   Identity.antt      identity/identity.go: Words (the tables), Parts (parts, withoutPublisher,
--                      extension), Token (digits, isVersion, isParams, isQuantLevel,
--                      isBlockFormat), Tokens (tokens, shardRun, quantRun), Assemble (splitParts,
--                      assemble), Parse (Parse, Family, Same, Shard, Component)
--   Ref.antt           go/ref.go: Ref, String, ParseRef, parseHF, parseOllama
--   Download.antt      the values of package download that the program builds and reads
--   Credentials.antt   go/credentials.go: applyCredential
--   Hf.antt            go/hf.go: HF.Resolve, pick, hfAttrs, validRepo, validFilename
--   Ollama.antt        go/ollama.go: root, Resolve
--   Local.antt         go/local.go: Find, Augment, SameVolume, placeKey
--   Registry.antt      go/model.go: Registry, Add, SetLocal, Resolve, ResolveRef, Submit
--   Wire.antt          go/abstraction/model/api/rec.go: LookupOutcome, LookupResult
--   Codec.antt         go/abstraction/model/api/rec.go: the JSON strings (esc, str, escape, validUTF8)
--   Number.antt        the same file: num, integer, boolean, literal
--   Record.antt        the same file: what the codecs of the records share, the writer's lines and the
--                      loop over the members of an object
--   Raw.antt           the same file: opaque values (rawValue, skipValue, skipContainer, skipNumber)
--   Message.antt       the same file: the writer and the reader of each record (encRef, decodeRef and
--                      so on); Results: those of LookupResult and ManifestResult; Whole: EncodeRef,
--                      DecodeRef and their kin; Json: the values that a frame carries
--   Endpoint.antt      the same file: servicePayload, serviceResponse, serviceReply; Describe:
--                      DescribeEndpoint, sortedKeys, ServeEndpoint; Exchange: the clients and the
--                      dispatchers of ModelResolver and ModelManifest
--   Vocabulary.antt    go/abstraction/model/api/rec.go: the words, text and JSON forms of
--                      LookupOutcome and ManifestOutcome
--   Service.antt       go/service/lookup.go (lookup, validRef) and the receiver of
--                      go/service/service.go (authorized, subject, Resolve); Lifecycle: its
--                      host (EnablePolicy, EnableCredentials, Serve, Close) as a step relation
--   Client.antt        go/client/client.go: validResult, ResolveContext
--   System.antt        the client's call through the generated client and dispatcher of the receiver
--   Modelget.antt      go/cmd/modelget/args.go: parse, need, status; go/cmd/modelget/main.go:
--                      filenameFor, isDirPath
--
-- The child modules of a part hold its theorems, its Tests and Examples hold runs.
--
-- A string is the list of its bytes, and letters, white space and digits are those of ASCII, to
-- which the case and space functions of package strings are restricted. A number is a natural
-- number, and int64 sizes and priorities are integers; the value of digits is kept to 64 bits, as int
-- wraps around. A position in a slice is the list from there on, and a Go map used as a set is the
-- list of its keys. Errors are constructors that carry what their messages quote. Loops are recursions
-- on the list that they read, but for three. The loops over the members of an object and over the
-- items of an opaque container run on fuel, one more than the bytes that are left when they begin, and
-- the loop of modelget's parse on one more than the arguments: a round passes a byte, or an argument,
-- at least, so that is enough. num has the 24 rounds of its array. The depth of the
-- reader is kept as what is left of its limit, 64, and nested values are read with one less.
--
-- The generated readers and writers of rec.go repeat one loop with the fields of their record in
-- it. Here the loop is written once, in Record, and a record gives it the switch over its keys, its
-- first value and the keys that it requires; `seen`, a bit set there, is the list of the keys. The
-- generated client and dispatcher are one code for both services in the same way, with the
-- service's name and the codec of its result as parameters.
--
-- What other packages do is a parameter, a field of a record of functions: the exchange with the
-- origin, net/http's parser of URLs and the JSON decoder (Web), the file system (Disk), the stores of
-- package storage and identity.PlaceKey (Local), the validator of portable requests and UTF-8
-- (Outside), the call's proof of its caller (Call). The theorems hold for all their values.
--
--
-- The codec of the request and of the manifest that a result may carry stands in packages request and
-- content, and is a parameter too (Imported): where a theorem needs it, its hypothesis is that it reads
-- back what it writes. A handler returns, fails or panics (Handled).
--
-- Not modelled: the commands of go/cmd/modelget, which print and call, the sockets and the deadline of a call, the
-- helpers of rec.go for lists and maps of strings, which no record uses, its indenter of raw values,
-- and the ports to other languages.
pub mod Base
pub mod Strings
pub mod Identity
pub mod Ref
pub mod Download
pub mod Credentials
pub mod Hf
pub mod Client
pub mod Codec
pub mod Endpoint
pub mod Local
pub mod Message
pub mod Modelget
pub mod Number
pub mod Ollama
pub mod Raw
pub mod Record
pub mod Registry
pub mod Service
pub mod System
pub mod Vocabulary
pub mod Wire
