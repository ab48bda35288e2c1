-- ===== src/Server/Control.antt =====
-- server.c: where the worker of a stream is asked for a keyframe, as the environment and a file tell.
use myworkspace.Prelude.{
  ℕ, ◌≤◌, ◌≡◌, List, [], ◌∷◌, Option, none, some, Bool, true, false, ◌||◌, ◌==◌, ltb, if◌then◌else◌,
  if-holds, arith, subst,
}
use myworkspace.Recorder.{update}
use myworkspace.Stream.Route.{is_unset}
use myworkspace.Server.Dispatch.{ServerEnv, WorkerCtrlEndpoint, server_runtime_max_streams}

-- What `sscanf` finds in an item, where it finds all three; a negative port is 0, which is refused alike.
pub record CtrlItem : Type 0 where
  pub stream_id : ℕ
  pub ip : List ℕ
  pub port : ℕ

-- `sscanf` with "%u:%63[^:]:%d" and with "%u %63s %d", `strtok_r` at commas, and `isspace`.
pub record CtrlScanner : Type 0 where
  pub with_colons : List ℕ → Option CtrlItem
  pub with_spaces : List ℕ → Option CtrlItem
  pub items : List ℕ → List (List ℕ)
  pub is_space : ℕ → Bool

abbrev pub hash : ℕ
hash = b'#'

abbrev pub CtrlMap : Type 0
CtrlMap = ℕ → Option WorkerCtrlEndpoint

module _ (scanner : CtrlScanner) where
  unfoldable pub trim_front : List ℕ → List ℕ
  trim_front [] = []
  trim_front (c ∷ cs) = let rest = trim_front cs in if scanner.is_space c then rest else c ∷ cs

  unfoldable pub trim_back : List ℕ → List ℕ
  trim_back [] = []
  trim_back (c ∷ cs) =
      let rest = trim_back cs in
      elim rest [ [] ↦ if scanner.is_space c then [] else c ∷ [] | d ∷ ds ↦ c ∷ (d ∷ ds) ]

  unfoldable pub trim_ascii : List ℕ → List ℕ
  trim_ascii s = trim_back (trim_front s)

  module _ {W : Type 0} (env : ServerEnv W) where
    unfoldable pub set_worker_ctrl_endpoint : CtrlMap → CtrlItem → CtrlMap
    set_worker_ctrl_endpoint known item =
        if item.stream_id == 0
          || (ltb (server_runtime_max_streams env) item.stream_id
              || (is_unset item.ip || (item.port == 0 || ltb 65535 item.port)))
        then known
        else update known item.stream_id (some (record { ip = item.ip; port = item.port }))

    unfoldable pub set_item : CtrlMap → Option CtrlItem → CtrlMap
    set_item known none = known
    set_item known (some item) = set_worker_ctrl_endpoint known item

    unfoldable pub set_items : CtrlMap → List (List ℕ) → CtrlMap
    set_items known [] = known
    set_items known (item ∷ rest) =
        let text = trim_ascii item in
        set_items (if is_unset text then known else set_item known (scanner.with_colons text)) rest

    -- `map_str` is NULL or empty, or its copy cannot be had, where there are no items.
    unfoldable pub parse_worker_ctrl_map_string : CtrlMap → Option (List ℕ) → CtrlMap
    parse_worker_ctrl_map_string known none = known
    parse_worker_ctrl_map_string known (some map_str) =
        if is_unset map_str then known else set_items known (scanner.items map_str)

    abbrev pub is_comment : List ℕ → Bool
    is_comment [] = true
    is_comment (c ∷ cs) = c == hash

    abbrev pub first_of : Option CtrlItem → Option CtrlItem → Option CtrlItem
    first_of none b = b
    first_of (some a) b = some a

    -- The lines of the file.
    unfoldable pub parse_worker_ctrl_map_file : CtrlMap → List (List ℕ) → CtrlMap
    parse_worker_ctrl_map_file known [] = known
    parse_worker_ctrl_map_file known (line ∷ rest) =
        let text = trim_ascii line in
        parse_worker_ctrl_map_file
          (if is_comment text
            then known
            else set_item known (first_of (scanner.with_spaces text) (scanner.with_colons text)))
          rest

    unfoldable pub init_worker_ctrl_map : Option (List ℕ) → List (List ℕ) → CtrlMap
    init_worker_ctrl_map map_str file =
        parse_worker_ctrl_map_file (parse_worker_ctrl_map_string (λ id. none) map_str) file

    -- An entry that can be used: its stream is one of the server's, it has an address and a port.
    abbrev pub IsUsable : ℕ → Option WorkerCtrlEndpoint → Type 0
    IsUsable id none = Unit
    IsUsable id (some e) =
        (1 ≤ id)
        × (id ≤ server_runtime_max_streams env)
        × (is_unset e.ip ≡ false)
        × (1 ≤ e.port)
        × (e.port ≤ 65535)

    abbrev pub AllUsable : CtrlMap → Type 0
    AllUsable known = (id : ℕ) → IsUsable id (known id)

    same_id : (a b : ℕ) → a == b ≡ true → a ≡ b
    same_id a b e = ground arith

    update-IsUsable :
        (known : CtrlMap) (at id : ℕ) (e : WorkerCtrlEndpoint)
        → IsUsable at (some e)
        → AllUsable known
        → IsUsable id (update known at (some e) id)
    update-IsUsable known at id e ok all =
        if-holds (IsUsable id) (at == id) (some e) (known id)
          (λ here. subst (λ i. IsUsable i (some e)) (same_id at id here) ok) (λ other. all id)

    set_item-AllUsable :
        (known : CtrlMap) (o : Option CtrlItem) → AllUsable known → AllUsable (set_item known o)
    unfolding set_item set_worker_ctrl_endpoint
    set_item-AllUsable known none all = all
    set_item-AllUsable known (some item) all =
        if-holds AllUsable
          (item.stream_id == 0
            || (ltb (server_runtime_max_streams env) item.stream_id
                || (is_unset item.ip || (item.port == 0 || ltb 65535 item.port))))
          _ _ (λ e. all)
          (λ e id.
            update-IsUsable known item.stream_id id (record { ip = item.ip; port = item.port })
              (ground arith) all)

    set_items-AllUsable :
        (items : List (List ℕ)) (known : CtrlMap)
        → AllUsable known
        → AllUsable (set_items known items)
    unfolding set_items
    set_items-AllUsable [] known all = all
    set_items-AllUsable (item ∷ rest) known all = set_items-AllUsable rest _ (
        if-holds AllUsable (is_unset (trim_ascii item)) _ _ (λ e. all)
          (λ e. set_item-AllUsable known (scanner.with_colons (trim_ascii item)) all))

    file-AllUsable :
        (lines : List (List ℕ)) (known : CtrlMap)
        → AllUsable known
        → AllUsable (parse_worker_ctrl_map_file known lines)
    unfolding parse_worker_ctrl_map_file
    file-AllUsable [] known all = all
    file-AllUsable (line ∷ rest) known all =
        let text = trim_ascii line in
        file-AllUsable rest _ (
          if-holds AllUsable (is_comment text) _ _ (λ e. all)
            (λ e.
              set_item-AllUsable known
                (first_of (scanner.with_spaces text) (scanner.with_colons text)) all))

    string-AllUsable :
        (map_str : Option (List ℕ)) (known : CtrlMap)
        → AllUsable known
        → AllUsable (parse_worker_ctrl_map_string known map_str)
    unfolding parse_worker_ctrl_map_string
    string-AllUsable none known all = all
    string-AllUsable (some map_str) known all =
        if-holds AllUsable (is_unset map_str) _ _ (λ e. all)
          (λ e. set_items-AllUsable (scanner.items map_str) known all)

    -- Whatever the variable and the file say, every entry of the map can be used.
    pub init_worker_ctrl_map-AllUsable :
        (map_str : Option (List ℕ)) (file : List (List ℕ))
        → AllUsable (init_worker_ctrl_map map_str file)
    unfolding init_worker_ctrl_map
    init_worker_ctrl_map-AllUsable map_str file =
        file-AllUsable file _ (string-AllUsable map_str (λ id. none) (λ id. tt))
