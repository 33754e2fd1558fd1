-- ===== src/Tests/ServerRuns.antt =====
-- Runs of the servers, of the event loop and of the plugin manager.
use edge_link.Prelude.{
  if◌then◌else◌, ℕ, ◌≡◌, refl, ◌⊎◌, Bool, true, false, none, some, Option, List, [], ◌∷◌, ◌++◌,
  arith, eqb, Text, codes, length, is_some,
}
use edge_link.EventLoop
use edge_link.EventLoop.{
  Events, EventLoop, Callback, remove_channel, handle_event, reading_events, both_events,
  accepting_events, dispatch,
}
use edge_link.EventLoop.Dispatch.{dispatch_removed}
use edge_link.PluginManager
use edge_link.PluginManager.Balance.{PluginCall, plugin_run, Balanced, plugin_run-Balanced}
use edge_link.PluginManager.{LoadAnswers, unload_all, LoadedPlugin, PluginManager, start_all}
use edge_link.PluginManager.Starting.{none_refuses, running, start_all_lem}
use edge_link.Prelude.Dict.{find, erase, find-erase, put, map_values}
use edge_link.Prelude.Keys.{text_eq, nat_eq}
use edge_link.TcpServer
use edge_link.TcpServer.{
  Client, TcpServer, Net, StartAnswers, EpollAnswers, RecvResult, SendResult, new_client,
}
use edge_link.TcpServer.Echo
use edge_link.TcpServer.Echo.{Call, Echoes, unsent, run-Echoes}
use edge_link.TcpServer.Resources.{start_all_or_nothing}
use edge_link.UnixServer
use edge_link.UnixServer.{UnixClient, UnixServer, PathFile, Host, UnixStartAnswers}
use edge_link.UnixServer.Clients.{handle_client_read, new_unix_client}
use edge_link.UnixServer.Path.{start_keeps_files}
use edge_link.UnixServer.Replies.{responses, Answers, handle_client_read_answers}

abbrev agreed : EpollAnswers
agreed = record { taken_out = true; put_back = true; removed = true }

abbrev watched : Net
watched = record {
  loop = record { channels = (3, accepting_events) ∷ (4, reading_events) ∷ []; running = true };
  descriptors = 4 ∷ 3 ∷ [];
}

abbrev one_client : TcpServer
one_client = record { port = 9000; listen_fd = some 3; clients = (4, new_client) ∷ [] }

-- The kernel takes one byte of three, and later the rest.
abbrev in_pieces : List Call
in_pieces =
    Call.readable (RecvResult.received (65 ∷ 66 ∷ 67 ∷ []) ∷ RecvResult.recv_blocked ∷ [])
      (SendResult.wrote 1 ∷ SendResult.send_blocked ∷ []) agreed
    ∷ Call.writable (SendResult.send_interrupted ∷ SendResult.wrote 2 ∷ []) agreed
    ∷ []

one_client_found : find 4 one_client.clients ≡ some new_client
unfolding find
one_client_found = refl

run-Echoes_example :
    let (got, sent, s', net') = Echo.run 4 in_pieces one_client watched in
    Echoes sent (unsent new_client ++ got) (find 4 s'.clients)
run-Echoes_example =
    run-Echoes 4 in_pieces one_client watched new_client one_client_found (omega arith)

in_pieces_sent : (Echo.run 4 in_pieces one_client watched).1 ≡ 65 ∷ 66 ∷ 67 ∷ []
unfolding Echo.run Echo.step TcpServer.handle_client_read TcpServer.handle_client_write
    TcpServer.read_loop TcpServer.write_loop TcpServer.after_write TcpServer.update_client_events
    find put EventLoop.remove_channel EventLoop.add_channel
in_pieces_sent = refl

-- `bind` fails.
abbrev port_in_use : StartAnswers
port_in_use = record {
  socket = some 5;
  reuse_set = true;
  bound = false;
  listening = true;
  registered = true;
}

abbrev empty_net : Net
empty_net = record { loop = record { channels = []; running = false }; descriptors = [] }

start_all_or_nothing_example :
    let (ok, s', net') = TcpServer.start port_in_use (TcpServer.new 9000) empty_net in
    (ok ≡ false)
    × (ok ≡ false → (s' ≡ TcpServer.new 9000) × (net' ≡ empty_net))
    × (ok ≡ true
        → (fd : ℕ) × (s'.listen_fd ≡ some fd)
          × (net'.descriptors ≡ fd ∷ [])
          × (find fd net'.loop.channels ≡ some accepting_events))
unfolding TcpServer.new
start_all_or_nothing_example =
    start_all_or_nothing port_in_use (TcpServer.new 9000) empty_net refl (λ fd e. refl)

abbrev echo_handler : Text → Option Text
echo_handler t = some t

abbrev one_unix_client : UnixServer
one_unix_client = record {
  has_loop = true;
  socket_path = codes "/run/edgelink.sock";
  message_handler = some echo_handler;
  listen_fd = some 3;
  owns_socket_path = true;
  clients = (4, new_unix_client) ∷ [];
}

abbrev two_packets : List RecvResult
two_packets =
    RecvResult.received (codes "PING")
    ∷ RecvResult.received (codes "STATUS")
    ∷ RecvResult.recv_blocked
    ∷ []

one_unix_client_found : find 4 one_unix_client.clients ≡ some new_unix_client
unfolding find
one_unix_client_found = refl

handle_client_read_answers_example :
    let (sent, s', net') =
      handle_client_read two_packets (SendResult.wrote 4 ∷ []) agreed 4 one_unix_client watched in
    Answers sent ([] ++ responses (some echo_handler) two_packets) (find 4 s'.clients)
handle_client_read_answers_example =
    handle_client_read_answers two_packets (SendResult.wrote 4 ∷ []) agreed 4 one_unix_client
      watched new_unix_client one_unix_client_found

-- There is a stale socket, and everything else goes well.
abbrev restarts : UnixStartAnswers
restarts = record {
  probe_made = true;
  unlinked = true;
  socket = some 3;
  bound = true;
  listening = true;
  registered = true;
  channel_removed = true;
  path_removed = true;
}

abbrev after_crash : Host
after_crash = record { net = empty_net; file = PathFile.stale_socket }

start_keeps_files_example :
    let (ok, s', h') = UnixServer.start restarts (UnixServer.new true (codes "/s")) after_crash in
    ((PathFile.stale_socket ≡ PathFile.other_file)
        ⊎ (PathFile.stale_socket ≡ PathFile.unknown_file)
        ⊎ (PathFile.stale_socket ≡ PathFile.listening_socket)
      → (ok ≡ false) × (h' ≡ after_crash))
    × (ok ≡ true
        → (h'.file ≡ PathFile.listening_socket)
          × (s'.owns_socket_path ≡ true)
          × (is_some s'.listen_fd ≡ true))
    × (ok ≡ false → s'.listen_fd ≡ none)
unfolding UnixServer.new
start_keeps_files_example =
    start_keeps_files restarts (UnixServer.new true (codes "/s")) after_crash refl

-- The callback of descriptor 3 removes the channel of descriptor 4.
abbrev removes_four : Callback → ℕ → EventLoop → EventLoop
removes_four c fd loop = if eqb fd 3 then (remove_channel true 4 loop).1 else loop

abbrev set_loop_running : Bool → EventLoop → EventLoop
set_loop_running b loop = record loop { running = b }

abbrev itself : EventLoop → EventLoop
itself loop = loop

abbrev first_event : List (ℕ × Events)
first_event = (3, accepting_events) ∷ []

abbrev later_events : List (ℕ × Events)
later_events = (4, both_events) ∷ (3, accepting_events) ∷ (4, reading_events) ∷ []

four_removed :
    find 4 (dispatch itself set_loop_running removes_four first_event watched.loop).channels ≡ none
unfolding find dispatch remove_channel erase handle_event
four_removed = refl

four_stays_removed :
    (c : Callback) (d : ℕ) (loop : EventLoop)
    → find 4 loop.channels ≡ none
    → find 4 (removes_four c d loop).channels ≡ none
unfolding remove_channel
four_stays_removed c d loop gone = ground (arith, find-erase 4 4 loop.channels)

dispatch_removed_example :
    dispatch itself set_loop_running removes_four (first_event ++ later_events) watched.loop
    ≡ dispatch itself set_loop_running removes_four
        (first_event ++ (3, accepting_events) ∷ [])
        watched.loop
dispatch_removed_example =
    dispatch_removed itself set_loop_running removes_four 4 first_event later_events watched.loop
      four_stays_removed four_removed

abbrev loaded : Bool → LoadedPlugin
loaded started = record { handle = 1; instance_id = 1; started = started; path = codes "/p.so" }

abbrev three_plugins : PluginManager
three_plugins = record {
  plugins = (codes "a", loaded false) ∷ (codes "b", loaded true) ∷ (codes "c", loaded false) ∷ [];
  open_libraries = 3;
  live_instances = 3;
}

-- The plugin of the name "c" does not start.
abbrev only_a : Text → Bool
only_a [] = false
only_a (x ∷ xs) = eqb x 97

start_all_lem_example :
    let (ok, m') = start_all only_a three_plugins in
    (ok ≡ none_refuses only_a three_plugins.plugins)
    × (ok ≡ true → m' ≡ record three_plugins { plugins = map_values running three_plugins.plugins })
    × (ok ≡ false → m' ≡ three_plugins)
unfolding find
start_all_lem_example = start_all_lem only_a three_plugins (refl, (refl, (refl, tt)))

-- Two libraries give plugins of the same name.
abbrev same_name : LoadAnswers
same_name = record {
  opened = some 1;
  has_create = true;
  has_destroy = true;
  created = some 1;
  plugin_name = some (codes "a");
  initialized = true;
}

abbrev loaded_twice : List PluginCall
loaded_twice =
    PluginCall.loads same_name (codes "/a.so")
    ∷ PluginCall.loads same_name (codes "/b.so")
    ∷ PluginCall.starts_all only_a
    ∷ []

plugin_run-Balanced_example :
    let m = plugin_run loaded_twice PluginManager.new in
    let unloaded = unload_all (length m.plugins) m in
    Balanced m
    × (unloaded.plugins ≡ [])
    × (unloaded.open_libraries ≡ 0)
    × (unloaded.live_instances ≡ 0)
plugin_run-Balanced_example = plugin_run-Balanced loaded_twice
