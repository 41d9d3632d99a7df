-- ===== src/Utils/Args.antt =====
-- packages/utils/src/args.ts: the arguments of a prefix command.
-- `Tokens` is `tokenizeArgs`, `Reading` is `readOne` and `Parsing` is
-- `parsePrefixArgs`.
pub mod Tokens
pub mod RoundTrip
pub mod Reading
pub mod Parsing
pub mod Options
pub mod Fits
pub mod Results
mod Tests
