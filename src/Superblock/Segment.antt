-- ===== src/Superblock/Segment.antt =====
-- The superblock of a segment (superblock.go, `standardSuperblock` and `endpointRecord`): its words,
-- and the single writes and tests that the claim and the publication are made of.
use hqq.Common.{ℕ, Bool, true, false, not, ◌&&◌, ◌||◌, List, [], ◌∷◌, ◌==◌, if◌then◌else◌}

-- `superblockMagic`, `superblockMajor`, `superblockMinor`
abbrev pub superblock_magic : ℕ
superblock_magic = 5211035713706150963

abbrev pub superblock_major : ℕ
superblock_major = 3

abbrev pub superblock_minor : ℕ
superblock_minor = 0

-- `superblockStateEmpty`, `superblockStateInitializing`, `superblockStateReady`
abbrev pub state_empty : ℕ
state_empty = 0

abbrev pub state_initializing : ℕ
state_initializing = 1

abbrev pub state_ready : ℕ
state_ready = 2

-- `detachedToken`
abbrev pub detached_token : ℕ
detached_token = 1

-- `endpointRecord`
pub record Endpoint : Type 0 where
  pub token : ℕ
  pub pid : ℕ
  pub heartbeat : ℕ
  pub interval : ℕ

-- `standardSuperblock`; `primary` and `secondary` are its `endpoints`, and `padding` are the unnamed
-- words and the rest of the first page.
pub record Superblock : Type 0 where
  pub magic : ℕ
  pub state : ℕ
  pub major : ℕ
  pub minor : ℕ
  pub page_size : ℕ
  pub buffer_count : ℕ
  pub buffer_size : ℕ
  pub layout_size : ℕ
  pub epoch : ℕ
  pub init_token : ℕ
  pub init_heartbeat : ℕ
  pub required_features : ℕ
  pub creator_token : ℕ
  pub primary : Endpoint
  pub secondary : Endpoint
  pub padding : List ℕ

-- `Geometry`
pub record Geometry : Type 0 where
  pub buffer_count : ℕ
  pub buffer_size : ℕ
  pub layout_size : ℕ
  pub page_size : ℕ

-- `isOwnerToken`
unfoldable pub is_owner_token : ℕ → Bool
is_owner_token t = not (t == 0) && not (t == detached_token)

abbrev all_zero : List ℕ → Bool
all_zero [] = true
all_zero (w ∷ ws) = w == 0 && all_zero ws

abbrev endpoint_words : Endpoint → List ℕ → List ℕ
endpoint_words e ws = e.token ∷ e.pid ∷ e.heartbeat ∷ e.interval ∷ ws

-- `firstPageZero`: the words of the page, the first ones in the order of the struct
unfoldable pub first_page_zero : Superblock → Bool
first_page_zero sb = all_zero (
    sb.magic
    ∷ sb.state
    ∷ sb.major
    ∷ sb.minor
    ∷ sb.page_size
    ∷ sb.buffer_count
    ∷ sb.buffer_size
    ∷ sb.layout_size
    ∷ sb.epoch
    ∷ sb.init_token
    ∷ sb.init_heartbeat
    ∷ sb.required_features
    ∷ sb.creator_token
    ∷ endpoint_words sb.primary (endpoint_words sb.secondary sb.padding))

-- `checkLayoutCompat`, true for a nil error; `knownRequiredFeatures` is 0.
unfoldable pub check_layout_compat : Superblock → Bool → Bool
check_layout_compat sb initializing =
    if not (sb.required_features == 0)
    then false
    else if not initializing
    then sb.magic == superblock_magic && sb.major == superblock_major
    else if not (sb.magic == 0) && not (sb.magic == superblock_magic)
    then false
    else not
        (not (sb.major == superblock_major) && (not (sb.major == 0) || not (sb.init_token == 0)))

-- `stampLayout`
unfoldable pub stamp_layout : Superblock → Superblock
stamp_layout sb = record sb {
  major = superblock_major;
  minor = superblock_minor;
  required_features = 0;
}

-- The segment as a Geometry, as `claimSuperblock` reads it
unfoldable pub geometry : Superblock → Geometry
geometry sb = record {
  buffer_count = sb.buffer_count;
  buffer_size = sb.buffer_size;
  layout_size = sb.layout_size;
  page_size = sb.page_size;
}

abbrev pub same_geometry : Geometry → Geometry → Bool
same_geometry a b =
    a.buffer_count == b.buffer_count
    && a.buffer_size == b.buffer_size
    && a.layout_size == b.layout_size
    && a.page_size == b.page_size

-- `clearEndpoint`
abbrev pub clear_endpoint : Endpoint
clear_endpoint = record { token = 0; pid = 0; heartbeat = 0; interval = 0 }

-- `fillEndpoint`, by the process `pid` at the time `now`
unfoldable pub fill_endpoint : ℕ → ℕ → ℕ → Endpoint → Endpoint
fill_endpoint pid interval now e = record e { pid = pid; heartbeat = now; interval = interval }
