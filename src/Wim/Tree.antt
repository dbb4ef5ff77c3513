-- ===== src/Wim/Tree.antt =====
-- The directory tree of an image (wim/dentry.go's types, wim/path.go, wim/tree.go, wim/remove.go,
-- wim/rename.go's `ReadDir`, wim/graft.go). A `*DirEntry` that is written through is the node of a
-- tree, and a method gives the tree after the call, also when it fails. `Child` is the search for
-- the first match: its cache is rebuilt whenever `Children` is another slice.
pub mod Entry
pub mod Walk
