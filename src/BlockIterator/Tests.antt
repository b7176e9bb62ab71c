-- ===== src/BlockIterator/Tests.antt =====
-- The theorem on the block iterator (src/block/block_iterator.cpp) at a concrete block.
