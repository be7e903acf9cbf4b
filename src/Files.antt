-- ===== src/Files.antt =====
-- The directory tree, as far as the controller reads and changes it: one entry for a path.
use tod_dl.Base.{ℕ, String, Bool, true, false, Option, none, some, List, [], length}

-- What `lstat` finds. Only a regular file has contents that the code reads; the others have the size
-- that `stat` gives. A link leads to something, or to nothing.
pub data Node : Type 0 where
  file : List ℕ → Node
  directory special : ℕ → Node
  link_to : Node → Node
  dangling : Node

abbrev pub Files : Type 0
Files = List (String × Node)

-- path.exists()
unfoldable pub exists : Option Node → Bool
exists none = false
exists (some dangling) = false
exists (some _) = true

-- path.stat().st_size, 0 where there is nothing
unfoldable pub node_size : Node → ℕ
node_size (file bytes) = length bytes
node_size (directory size) = size
node_size (special size) = size
node_size (link_to node) = node_size node
node_size dangling = 0

unfoldable pub size_of : Option Node → ℕ
unfolding node_size
size_of none = 0
size_of (some node) = node_size node

-- stat.S_ISREG(path.lstat().st_mode), False where there is nothing
unfoldable pub is_regular : Option Node → Bool
is_regular (some (file bytes)) = true
is_regular none = false
is_regular (some _) = false

-- os.path.islink(path)
unfoldable pub is_link : Option Node → Bool
is_link (some (link_to node)) = true
is_link (some dangling) = true
is_link _ = false

-- path.is_dir()
unfoldable pub node_is_dir : Node → Bool
node_is_dir (directory size) = true
node_is_dir (link_to node) = node_is_dir node
node_is_dir _ = false

unfoldable pub is_dir : Option Node → Bool
unfolding node_is_dir
is_dir none = false
is_dir (some node) = node_is_dir node

-- path.is_file()
unfoldable pub node_is_file : Node → Bool
node_is_file (file bytes) = true
node_is_file (link_to node) = node_is_file node
node_is_file _ = false

unfoldable pub is_file : Option Node → Bool
unfolding node_is_file
is_file none = false
is_file (some node) = node_is_file node

-- The bytes that reading the path gives.
unfoldable pub node_bytes : Node → List ℕ
node_bytes (file bytes) = bytes
node_bytes (link_to node) = node_bytes node
node_bytes _ = []
