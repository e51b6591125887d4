-- ===== src/CloudInit.antt =====
-- pkg/cloudinit: the commands of a cloud-config become lines of a shell script. `GenerateScript`
-- cuts the text into one block for each top-level key (Actions), a block becomes an action, and an
-- action a block of the script: `write_files` (WriteFiles), `runcmd` (RunCmd), any other (Unknown).
pub mod Parsers
pub mod RunCmd
pub mod WriteFiles
pub mod Unknown
pub mod Actions
pub mod Commands
pub mod Contents
pub mod Blocks
pub mod UnknownKeys
pub mod HereDocuments
pub mod Panics
pub mod Tests
