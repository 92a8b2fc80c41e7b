-- ===== src/Plate.antt =====
-- License plates: `getMaxSimilarity`, `getDigitFromString` and the partial matching of `PBSExit` in
-- operation.cpp.
pub mod Similarity
pub mod Exact
pub mod Matching
pub mod Best
