-- ===== src/Lib.antt =====
-- The SSH client of R-SSH: the crates rssh-types, rssh-ssh and rssh-cli, and the SCP side of the
-- test server in rssh-test-support.
--
-- A command line (crates/rssh-cli/src/main.rs) becomes a connection request
-- (crates/rssh-ssh/src/lib.rs), the request becomes a plan, and the native opener
-- (crates/rssh-ssh/src/russh_client.rs) checks the server's key, authenticates and opens a channel.
-- The session runner then pumps input and output through the two halves of the channel and closes
-- it.
--
--   Types      crates/rssh-types/src/lib.rs: TerminalSize.
--   Config     crates/rssh-ssh/src/lib.rs: SshAuthMethod, SshSessionStartup, SshSessionConfig and
--              SshConnectRequest with their checks. Texts are lists of characters (Base/Text).
--   Plan       SshChannelOpenPlan (lib.rs), RusshAuthPlan, RusshChannelStartupPlan and
--              RusshConnectPlan (russh_client.rs).
--   Command    encode_posix_remote_command (russh_client.rs). Shell is a word splitter for the part
--              of the POSIX shell language that the encoding uses; RoundTrip relates them.
--   KnownHosts RusshKnownHosts::learn and known_hosts_contains_endpoint (russh_client.rs), on the
--              file's characters; each step of learn can fail, and a write can stop half way.
--   HostKey    RusshClientHandler::check_server_key (russh_client.rs) and the types of lib.rs that
--              it uses. What russh's known-hosts checks answer is a parameter, as is the verifier.
--   Auth       authenticate_auth_plan_with_backend with the backend on a russh handle
--              (russh_client.rs) and the prompts of lib.rs. The calls of russh, of the agent and of
--              the secret provider are functions on one state W.
--   Session    run_split_shell_with_events, pump_input_events, write_all_to_shell,
--              copy_session_to_output and SshCancellation (lib.rs). The traits SshShellWriter and
--              std::io::Write are records of operations on a state, with their documented contracts
--              as records of laws. The two threads share only the cancellation flag: a schedule
--              says at which load of it the other side has set it. Legacy: SharedSessionReader,
--              SharedSessionWriter and run_shell_with_io, for sessions without separate halves.
--   Channel    RusshChannelReader, RusshChannelWriter and RusshWriterLifecycle (russh_client.rs).
--              The messages and the outcome of each wait stand in the reader's state; russh's write
--              half is a parameter. Contract fills the session's WriterLaws with this writer.
--   Forward    the bound port, endpoint matching and ending of remote forwards (russh_client.rs).
--              The SSH session is a parameter; Deadline says what a shutdown was doing when its
--              time ran out.
--   Opener     RusshChannelOpener (russh_client.rs): the stages of a connection attempt under the
--              time limit of each call, and in Attempt their composition under the limit and the
--              cancellation of the whole attempt. What interrupts a call, and where, is what the
--              network's state answers. Local models the local forward of one stream, where the
--              copying of the two streams is a parameter; Runtime models LazyRusshRuntime as steps
--              of any number of callers.
--   Cli        parse, the request that run builds, and its exit code (main.rs).
--   Scp        crates/rssh-test-support/src/ssh/scp.rs: the command line (Words), the control lines
--              (Names, Wire), the checks of paths (Files), receiving (Sink) and sending (Source).
--              The file system, with paths P and a state F, is a parameter, as are UTF-8 and the
--              sorting of entries; what a failing call of it changes is not modelled.
--   Base       shared names, lists on native numbers, results, and operations with a state.
--   Examples   concrete runs.
--
-- An error is a value; a panic of a pump is the constructor panicked of Fault. Loops recurse on
-- what they consume: the list of arrivals, of reads, of messages, of identities or of arguments,
-- and the polls that a call takes, so there is no fuel except in the printing of decimals, where
-- five digits are enough for 16 bits and twenty for 64, and in the receiving loop of Scp/Sink,
-- where one turn more than the bytes still to come is enough, since every turn reads one. Numbers
-- are naturals; the counts of the pumps saturate at the largest u64 as in the code.
--
-- Some assumptions on code outside the repository are laws of a record: that russh's half sends at
-- most pieces of a failing or dropped call (Channel/Protocol), and that these are the front of its
-- data (Channel/Contract). On the standard library, that a path joined with a single name is that
-- path's child (Scp/Files/Inside), and that UTF-8 is decoded back and keeps ASCII
-- (Scp/Source/Lines). The messages of an SCP peer are a finite list: of an endless peer the model
-- has every finite front, and the theorem that receiving ends is about finite lists.
--
-- Not modelled: known-hosts files that are not UTF-8, in which the search finds nothing; what
-- changes in the file system between a check of scp.rs and the call behind it; the data pumps of
-- remote forwards; the printing of time limits in error messages, and of ports in those of Forward;
-- the console thread of the command line; the variants of scp.rs for systems other than Unix; the
-- other fixtures of rssh-test-support (the server's handler, agent, SFTP, forwarding and
-- processes).
pub mod Base
pub mod Command
pub mod Types
pub mod Config
pub mod Plan
pub mod Auth
pub mod HostKey
pub mod Opener
pub mod Scp
pub mod KnownHosts
pub mod Session
pub mod Channel
pub mod Cli
pub mod Forward
mod Examples
