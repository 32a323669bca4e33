-- ===== src/Evm.antt =====
-- Reading the pool contract on the EVM chains: blockchain/abi/contract.go, and callEVMChain,
-- callEVMChainWithRetry and strictEthCall of package blockchain.
pub mod Hex
pub mod Abi
pub mod Rpc
pub mod PeerIds
mod Examples
