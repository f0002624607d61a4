-- ===== src/Shell.antt =====
-- The user programs of c/user.c: the shell and its tokenizer, and the login of `root`.
pub mod Tokenizer
pub mod Ends
pub mod Word
pub mod Program
pub mod Command
pub mod Round
pub mod Calls
pub mod Leaves
pub mod Closes
pub mod Login
pub mod Accepts
