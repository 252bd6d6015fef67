-- ===== src/Research.antt =====
-- src/research_agent: the research loop over a backlog of hypotheses, and the graph that it feeds.
pub mod Backlog
pub mod Graph
pub mod Loop
pub mod Closed
pub mod Listing
pub mod Queries
pub mod Lineage
pub mod Ancestors
pub mod Updates
pub mod Counts
pub mod Choice
pub mod Progress
pub mod Runs
pub mod Accounts
pub mod Outcomes
mod Tests
mod GraphTests
